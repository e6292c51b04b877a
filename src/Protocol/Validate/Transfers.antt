-- ===== src/Protocol/Validate/Transfers.antt =====
-- Which SUBMIT and COMPLETE bodies are admitted.
use airusb_hub.Base.{ℕ, ◌+◌, ◌*◌, ◌/◌, ◌%◌, ◌^◌, ◌≤◌, ◌<◌, ◌≡◌, ◌↔◌, ◌⊎◌, List, arith, length, min}
use airusb_hub.Protocol.Codec.Headers.{Header}
use airusb_hub.Protocol.Codec.Transfers.{SubmitBody, CompleteBody}
use airusb_hub.Protocol.Validate.{
  rule_ok, Limits, r4_submit_identity, r4_complete_identity, r5_actual_len_check, validate_submit,
  validate_complete,
}
use airusb_hub.Protocol.Validate.Iso.{Admitted, r6_iso_table_check_iff}

-- The transfer is not isochronous and has no packets, or its table is in order.
abbrev pub IsoFits : ℕ → ℕ → List ℕ → ℕ → Limits → Type 0
IsoFits xfer_type count table buffer_len lim =
    ((xfer_type < 1) ⊎ (1 < xfer_type)) × (count ≡ 0)
    ⊎ ((xfer_type ≡ 1)
        × ((count ≡ 0)
            ⊎ ((count ≤ min lim.max_iso_packets 1024)
                × (count * 16 ≤ length table)
                × Admitted table buffer_len count 0 0 0)))

-- What a SUBMIT has to be. On endpoint 0 the direction is free; `dir` is 0 for OUT.
pub record IsSubmit (h : Header) (b : SubmitBody) (table : List ℕ) (lim : Limits) : Type 0 where
  pub dir_agrees : (b.ep_addr % 16 ≡ 0) ⊎ (b.dir ≡ b.ep_addr / 2 ^ 7)
  pub dir_known : b.dir ≤ 1
  pub type_known : b.xfer_type ≤ 3
  pub sized :
      ((b.dir ≡ 0) × (h.total_len ≡ b.iso_pkt_count * 16 + b.buffer_len))
      ⊎ ((b.dir ≡ 1) × (h.total_len ≡ b.iso_pkt_count * 16))
  pub within : b.buffer_len ≤ lim.max_transfer_bytes
  pub no_stream : b.stream_id ≡ 0
  pub iso : IsoFits b.xfer_type b.iso_pkt_count table b.buffer_len lim

-- What a COMPLETE has to be: its lengths agree with each other.
pub record IsComplete (h : Header) (b : CompleteBody) (table : List ℕ) (lim : Limits) : Type 0 where
  pub dir_known : b.dir ≤ 1
  pub type_known : b.xfer_type ≤ 3
  pub reserved_zero : b.reserved ≡ 0
  pub sized : h.total_len ≡ b.iso_pkt_count * 16 + b.payload_len
  pub no_more : b.actual_len ≤ b.requested_len
  pub carried :
      (b.xfer_type ≡ 1)
      ⊎ (((b.dir ≡ 1) × (b.payload_len ≡ b.actual_len)) ⊎ ((b.dir ≡ 0) × (b.payload_len ≡ 0)))
  pub iso : IsoFits b.xfer_type b.iso_pkt_count table b.requested_len lim

-- A SUBMIT with a 32-bit buffer length passes exactly where it is well formed: known type and
-- direction, the direction of its endpoint, a total that the packets and the outgoing data account
-- for, a buffer within the limit, no stream, and packets only on an isochronous endpoint and only
-- with a table that is in order.
pub validate_submit_iff :
    (h : Header) (b : SubmitBody) (table : List ℕ) (lim : Limits)
    → b.buffer_len < 2 ^ 32
    → ((validate_submit h b table lim).rule ≡ rule_ok) ↔ IsSubmit h b table lim
unfolding validate_submit r4_submit_identity
validate_submit_iff h b table lim small =
    let (sound, whole) = r6_iso_table_check_iff table b.iso_pkt_count b.buffer_len lim small in
    (λ e. ground (arith, sound), λ v. ground (arith, whole))

-- A COMPLETE with a 32-bit requested length passes exactly where it is well formed: no more moved
-- than was asked for, the payload what was moved in and none on the way out, a total that packets
-- and payload account for, and packets only on an isochronous endpoint and only with a table that
-- is in order.
pub validate_complete_iff :
    (h : Header) (b : CompleteBody) (table : List ℕ) (lim : Limits)
    → b.requested_len < 2 ^ 32
    → ((validate_complete h b table lim).rule ≡ rule_ok) ↔ IsComplete h b table lim
unfolding validate_complete r4_complete_identity r5_actual_len_check
validate_complete_iff h b table lim small =
    let (sound, whole) = r6_iso_table_check_iff table b.iso_pkt_count b.requested_len lim small in
    (λ e. ground (arith, sound), λ v. ground (arith, whole))

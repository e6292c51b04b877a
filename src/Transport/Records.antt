-- ===== src/Transport/Records.antt =====
-- airusb/transport/RecordLayer: records with a length before them, on a byte stream, through a
-- cipher.
--
-- The cipher is a parameter: what it does to a state of its own. What the stream answers is an
-- argument, one answer for each call of `read` or `write` in order; where the answers end, it would
-- block. The stream's own state (`isOpen`, `close`) is not modelled.
pub mod Sending
pub mod Receiving
pub mod Delivery
mod Examples
use airusb_hub.Base.{
  ℕ, zero, suc, ◌+◌, ◌-◌, ◌*◌, min, Bool, true, false, not, Option, none, some, List, [], ◌∷◌, ◌++◌,
  ltb, ◌==◌, if◌then◌else◌, length, take, drop,
}
use airusb_hub.Core.Status.{
  Status, ok, bad_argument, limit_exceeded, busy, transport_lost, malformed_frame,
}
use airusb_hub.Protocol.Codec.{rd_u32, wr_u32, grow}
use airusb_hub.Protocol.Validate.{
  rule_ok, Verdict, Limits, handshake_record_max, r1_record_size_check,
}

-- `IRecordCipher`: the state after, the bytes that were produced, and the status.
pub record Cipher (C : Type 0) : Type 0 where
  pub overhead : ℕ
  pub seal : C → List ℕ → C × List ℕ × Status
  pub unseal : C → List ℕ → C × List ℕ × Status

-- `NullCipher`, which has no state.
abbrev pub null_cipher : Cipher Unit
null_cipher = record { overhead = 0; seal = λ c pt. (c, pt, ok); unseal = λ c ct. (c, ct, ok) }

-- What `write` answers: how much it has room for, of which it takes what there is, or a failure.
pub data Written : Type 0 where
  room : ℕ → Written
  refused : Status → Written

-- What `read` answers: the bytes and the status.
pub record Read : Type 0 where
  pub bytes : List ℕ
  pub status : Status

abbrev pub record_len_size : ℕ
record_len_size = 4

abbrev pub record_bytes_floor : ℕ
record_bytes_floor = 1024

abbrev pub record_bytes_ceiling : ℕ
record_bytes_ceiling = 65519

pub record RecordLayer (C : Type 0) : Type 0 where
  pub cipher : C
  pub tx : List ℕ
  pub tx_sent : ℕ
  pub rx : List ℕ
  pub max_record : ℕ
  pub handshake_done : Bool
  pub fatal : Bool
  pub records_sent : ℕ
  pub records_received : ℕ

pub new_layer : {C : Type 0} → C → RecordLayer C
new_layer c = record {
  cipher = c;
  tx = [];
  tx_sent = 0;
  rx = [];
  max_record = handshake_record_max;
  handshake_done = false;
  fatal = false;
  records_sent = 0;
  records_received = 0;
}

-- The four bytes of the length.
unfoldable pub length_prefix : ℕ → List ℕ
length_prefix n = wr_u32 (grow record_len_size) 0 n

module _ {C : Type 0} where
  abbrev pub pending_tx_bytes : RecordLayer C → ℕ
  pending_tx_bytes s = length s.tx - s.tx_sent

  pub set_handshake_complete : ℕ → RecordLayer C → RecordLayer C
  set_handshake_complete negotiated s = record s {
    handshake_done = true;
    max_record = if ltb record_bytes_ceiling negotiated then record_bytes_ceiling else negotiated;
  }

  pub adopt_record_size : ℕ → RecordLayer C → RecordLayer C × Status
  adopt_record_size bytes s =
      if ltb bytes record_bytes_floor
      then (s, bad_argument)
      else if ltb record_bytes_ceiling bytes
      then (s, limit_exceeded)
      else (record s { max_record = bytes }, ok)

  -- `none` is the null pointer.
  pub adopt_cipher : Option C → ℕ → RecordLayer C → RecordLayer C × Status
  unfolding set_handshake_complete
  adopt_cipher none negotiated s = (s, bad_argument)
  adopt_cipher (some c) negotiated s =
      if not (pending_tx_bytes s == 0)
      then (s, busy)
      else (set_handshake_complete negotiated (record s { cipher = c }), ok)

  -- After the loop of `flush`: an empty buffer is cleared, a long one compacted.
  settle : RecordLayer C → RecordLayer C
  settle s =
      if s.tx_sent == length s.tx
      then record s { tx = []; tx_sent = 0 }
      else if ltb (64 * 1024) s.tx_sent
      then record s { tx = drop s.tx_sent s.tx; tx_sent = 0 }
      else s

  -- The loop, with the bytes that the stream has taken so far: the layer, the status, the bytes.
  flush_loop : RecordLayer C → List Written → List ℕ → RecordLayer C × Status × List ℕ
  unfolding settle
  flush_loop s [] wire = (settle s, ok, wire)
  flush_loop s (refused st ∷ ws) wire =
      if ltb s.tx_sent (length s.tx)
      then (record s { fatal = true }, st, wire)
      else (settle s, ok, wire)
  flush_loop s (room n ∷ ws) wire =
      let got = min n (pending_tx_bytes s) in
      let rest =
        flush_loop (record s { tx_sent = s.tx_sent + got }) ws
          (wire ++ take got (drop s.tx_sent s.tx)) in
      if ltb s.tx_sent (length s.tx)
      then if got == 0 then (settle s, ok, wire) else rest
      else (settle s, ok, wire)

  pub flush : RecordLayer C → List Written → RecordLayer C × Status × List ℕ
  unfolding flush_loop
  flush s ws = flush_loop s ws []

  abbrev pub absorb : List ℕ → RecordLayer C → RecordLayer C
  absorb bytes s = record s { rx = s.rx ++ bytes }

  -- `protocol::Limits` with its defaults and the record size.
  abbrev pub record_limits : RecordLayer C → Limits
  record_limits s = record {
    max_record_bytes = s.max_record;
    max_transfer_bytes = 1_048_576;
    max_segment_bytes = 16384;
    max_iso_packets = 0;
    max_channels = 256;
  }

  module _ (k : Cipher C) where
    sealed_into :
        RecordLayer C → ℕ → C × List ℕ × Status → List Written → RecordLayer C × Status × List ℕ
    unfolding flush length_prefix
    sealed_into s record_len (c, ct, ok) ws =
        flush
          (record s {
            cipher = c;
            tx = (s.tx ++ length_prefix record_len) ++ ct;
            records_sent = s.records_sent + 1;
          })
          ws
    sealed_into s record_len (c, ct, other) ws =
        (record s { cipher = c; tx = (s.tx ++ length_prefix record_len) ++ ct }, other, [])

    pub send_record : List ℕ → RecordLayer C → List Written → RecordLayer C × Status × List ℕ
    unfolding sealed_into
    send_record body s ws =
        let record_len = length body + k.overhead in
        if s.fatal
        then (s, transport_lost, [])
        else if ltb s.max_record record_len
        then (s, limit_exceeded, [])
        else sealed_into s record_len (k.seal s.cipher body) ws

    pub opened : RecordLayer C → ℕ → C × List ℕ × Status → RecordLayer C × Status × List ℕ
    opened s len (c, out, ok) = (
      record s {
        cipher = c;
        rx = drop (record_len_size + len) s.rx;
        records_received = s.records_received + 1;
      },
      ok,
      out,
    )
    opened s len (c, out, other) = (record s { cipher = c; fatal = true }, other, out)

    -- With the length that is announced, once rule 1 has passed it.
    whole_record : RecordLayer C → ℕ → Option (RecordLayer C × Status × List ℕ)
    unfolding opened
    whole_record s len =
        if ltb len k.overhead
        then some (record s { fatal = true }, malformed_frame, [])
        else if ltb (length s.rx) (record_len_size + len)
        then none
        else some (opened s len (k.unseal s.cipher (take len (drop record_len_size s.rx))))

    judged : RecordLayer C → ℕ → Verdict → Option (RecordLayer C × Status × List ℕ)
    unfolding whole_record
    judged s len verdict = elim verdict.rule [
      | rule_ok ↦ whole_record s len
      | other ↦ some (record s { fatal = true }, verdict.status, [])
    ]

    -- "Do we already hold a whole record?" `none` is no; else the call is over.
    pub take_record : RecordLayer C → Option (RecordLayer C × Status × List ℕ)
    unfolding judged
    take_record s =
        let len = rd_u32 s.rx 0 in
        if ltb (length s.rx) record_len_size
        then none
        else judged s len (r1_record_size_check len (record_limits s) s.handshake_done)

    -- The loop; beside the result, the answers that were not asked for.
    receive_loop : RecordLayer C → List Read → (RecordLayer C × Status × List ℕ) × List Read
    unfolding take_record
    receive_loop s [] = elim (take_record s) [ some done ↦ (done, []) | none ↦ ((s, ok, []), []) ]
    receive_loop s (r ∷ rs) = elim (take_record s) [
      | some done ↦ (done, r ∷ rs)
      | none ↦ elim r.status [
        | ok ↦
            let rest = receive_loop (absorb r.bytes s) rs in
            if length r.bytes == 0 then ((absorb r.bytes s, ok, []), rs) else rest
        | other ↦ ((record (absorb r.bytes s) { fatal = true }, other, []), rs)
      ]
    ]

    pub receive_record : RecordLayer C → List Read → (RecordLayer C × Status × List ℕ) × List Read
    unfolding receive_loop
    receive_record s rs = if s.fatal then ((s, transport_lost, []), rs) else receive_loop s rs

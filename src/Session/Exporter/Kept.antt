-- ===== src/Session/Exporter/Kept.antt =====
-- What every step of the transfers keeps, every message and every round of the event loop keep.
pub mod Messages
pub mod Claims
pub mod Round
use airusb_hub.Base.{
  ℕ, ◌≡◌, not, ◌||◌, ◌==◌, ltb, ◌%◌, refl, Bool, true, false, Option, none, some, List, [],
  if◌then◌else◌, String,
}
use airusb_hub.Core.Status.{Status}
use airusb_hub.Protocol.Codec.Headers.{Header}
use airusb_hub.Protocol.Codec.Transfers.{SubmitBody}
use airusb_hub.Protocol.Codec.Sessions.{CancelBody}
use airusb_hub.Protocol.Reassembly.{Outcome, need_more, complete, rejected, accept, seg_more}
use airusb_hub.Protocol.Validate.{validate_submit}
use airusb_hub.Session.Exporter.{Link, Ports, ExporterSession, books, is_leased, has_port}
use airusb_hub.Session.Exporter.Sending.{refuse, send_record, send_simple}
use airusb_hub.Session.Exporter.Queue.{enqueue_transfer, admit}
use airusb_hub.Session.Exporter.Outcomes.{collect}
use airusb_hub.Session.Exporter.Endings.{sweep_deadlines, fail_all_transfers}
use airusb_hub.Session.Exporter.Handlers.{
  refuse_message, reset_reassembly, begin_segmented, start_reassembly, first_segment, is_passed,
  limits_for, submit_decoded, handle_submit, continuation, handle_data,
}
use airusb_hub.Session.Exporter.Handlers.Cancels.{cancel_transfers, cancel_decoded, handle_cancel}

-- A predicate that reads the accounts alone, and that the six steps of the transfers keep.
pub record IsKept {T P D : Type 0} (over : Link T) (ports : Ports P)
    (Inv : ExporterSession T P D → Type 0) : Type 0 where
  pub framed : (s s' : ExporterSession T P D) → books s' ≡ books s → Inv s → Inv s'
  pub enqueued :
      (now ch id : ℕ) (sb : SubmitBody) (payload : List ℕ) (s : ExporterSession T P D)
      → Inv s
      → Inv (enqueue_transfer over now ch id sb payload s).0
  pub admitted : (s : ExporterSession T P D) → Inv s → Inv (admit over ports s)
  pub collected : (s : ExporterSession T P D) → Inv s → Inv (collect over ports s).0
  pub swept :
      (now : ℕ) (s : ExporterSession T P D) → Inv s → Inv (sweep_deadlines over ports now s).0
  pub failed :
      (st : Status) (s : ExporterSession T P D) → Inv s → Inv (fail_all_transfers over ports st s)
  pub cancelled :
      (cb : CancelBody) (s : ExporterSession T P D)
      → Inv s
      → Inv (cancel_transfers over ports cb s).0

pub if_both {ℓ κ} :
    {A : Type ℓ} (Q : A → Type κ) (b : Bool) (x y : A) → Q x → Q y → Q (if b then x else y)
if_both Q true x y hx hy = hx
if_both Q false x y hx hy = hy

module _ {T P D : Type 0} (over : Link T) (ports : Ports P) (Inv : ExporterSession T P D → Type 0)
    (law : IsKept over ports Inv) where
  abbrev pub Answers : ExporterSession T P D × Status → Type 0
  Answers r = Inv r.0

  pub refuse-Kept :
      (h : Header) (st : Status) (why : String) (s : ExporterSession T P D)
      → Inv s
      → Answers (refuse_message over h st why s)
  unfolding refuse_message refuse send_record
  refuse-Kept h st why s v = law.framed s _ refl v

  pub send-Kept :
      (type : ℕ) (st : Status) (id : ℕ) (body : List ℕ) (s : ExporterSession T P D)
      → Inv s
      → Answers (send_simple over type st id body s)
  unfolding send_simple send_record
  send-Kept type st id body s v = law.framed s _ refl v

  first_segment-Kept :
      (h : Header) (s : ExporterSession T P D) (o : Outcome)
      → Inv s
      → Answers (first_segment over h s o)
  unfolding first_segment reset_reassembly
  first_segment-Kept h s (rejected e) v = refuse-Kept h e _ _ (law.framed s _ refl v)
  first_segment-Kept h s need_more v = v
  first_segment-Kept h s complete v = v

  begin-Kept :
      (h : Header) (sb : SubmitBody) (payload : List ℕ) (s : ExporterSession T P D)
      → Inv s
      → Answers (begin_segmented over h sb payload s)
  unfolding begin_segmented start_reassembly
  begin-Kept h sb payload s v =
      let s' = start_reassembly h sb s in
      let o = accept h payload s'.rx in
      if_both Answers (not (sb.dir == 0)) _ _ (refuse-Kept h _ _ s v) (
        if_both Answers s.rx_active _ _ (refuse-Kept h _ _ s v)
          (first_segment-Kept h (record s' { rx = o.0 }) o.1 (law.framed s _ refl v)))

  submit-Kept :
      (now : ℕ) (h : Header) (payload : List ℕ) (s : ExporterSession T P D) (b : Option SubmitBody)
      → Inv s
      → Answers (submit_decoded over now h payload s b)
  unfolding submit_decoded
  submit-Kept now h payload s none v = refuse-Kept h _ _ s v
  submit-Kept now h payload s (some sb) v =
      let verdict = validate_submit h sb payload (limits_for (over.max_record_bytes s.link)) in
      if_both Answers (not (is_passed verdict)) _ _ (refuse-Kept h _ _ s v) (
        if_both Answers (seg_more h) _ _ (begin-Kept h sb payload s v) (
          if_both Answers s.rx_active _ _ (refuse-Kept h _ _ s v)
            (law.enqueued now _ _ sb payload s v)))

  pub handle_submit-Kept :
      (now : ℕ) (h : Header) (body : List ℕ) (s : ExporterSession T P D)
      → Inv s
      → Answers (handle_submit over now h body s)
  unfolding handle_submit
  handle_submit-Kept now h body s v =
      if_both Answers (not (is_leased s.state)) _ _ (refuse-Kept h _ _ s v) (
        if_both Answers (not (has_port s.port)) _ _ (refuse-Kept h _ _ s v)
          (if_both Answers (not (h.attach_id == s.attach_id)) _ _ v (submit-Kept now h _ s _ v)))

  continuation-Kept :
      (now : ℕ) (h : Header) (s : ExporterSession T P D) (o : Outcome)
      → Inv s
      → Answers (continuation over now h s o)
  unfolding continuation reset_reassembly
  continuation-Kept now h s (rejected e) v = refuse-Kept h e _ _ (law.framed s _ refl v)
  continuation-Kept now h s need_more v = v
  continuation-Kept now h s complete v = law.enqueued now _ _ _ _ _ (law.framed s _ refl v)

  pub handle_data-Kept :
      (now : ℕ) (h : Header) (body : List ℕ) (s : ExporterSession T P D)
      → Inv s
      → Answers (handle_data over now h body s)
  unfolding handle_data
  handle_data-Kept now h body s v =
      let o = accept h body s.rx in
      if_both Answers (not (is_leased s.state) || not (has_port s.port)) _ _ (refuse-Kept h _ _ s v)
        (if_both Answers (not (h.attach_id == s.attach_id)) _ _ v (
          if_both Answers
            (not s.rx_active
              || (not (h.channel == s.rx_channel) || not (h.request_id == s.rx_request_id)))
            _ _ (refuse-Kept h _ _ s v)
            (continuation-Kept now h (record s { rx = o.0 }) o.1 (law.framed s _ refl v))))

  cancel-Kept :
      (h : Header) (s : ExporterSession T P D) (b : Option CancelBody)
      → Inv s
      → Answers (cancel_decoded over ports h s b)
  unfolding cancel_decoded
  cancel-Kept h s none v = refuse-Kept h _ _ s v
  cancel-Kept h s (some cb) v = if_both Answers (ltb 1 cb.scope) _ _ (refuse-Kept h _ _ s v) (
      if_both Answers (not (cb.ep_addr == h.channel % 256)) _ _ (refuse-Kept h _ _ s v)
        (send-Kept _ _ _ _ _ (law.cancelled cb s v)))

  pub handle_cancel-Kept :
      (h : Header) (body : List ℕ) (s : ExporterSession T P D)
      → Inv s
      → Answers (handle_cancel over ports h body s)
  unfolding handle_cancel
  handle_cancel-Kept h body s v =
      if_both Answers (not (is_leased s.state)) _ _ (refuse-Kept h _ _ s v)
        (if_both Answers (not (h.attach_id == s.attach_id)) _ _ v (cancel-Kept h s _ v))

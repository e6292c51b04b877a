-- ===== src/Session/Exporter/Frames.antt =====
-- What keeps the accounts of the transfers, and what a COMPLETE adds to them.
use airusb_hub.Base.{ℕ, ◌≡◌, Bool, List, ◌∷◌, arith}
use airusb_hub.Core.Status.{Status}
use airusb_hub.Session.Exporter.{Link, InFlight, ExporterSession, Books, books}
use airusb_hub.Session.Exporter.Sending.{refuse, send_record, send_simple, emit_complete}
use airusb_hub.Session.Exporter.Outcomes.{acknowledge}

abbrev pub with_answer : InFlight → Books → Books
with_answer f b = record b { answered = (f.channel, f.request_id) ∷ b.answered }

module _ {T P D : Type 0} (over : Link T) where
  -- Every branch of `emitComplete` keeps the accounts, but for its own entry.
  pub emit_complete-books :
      (f : InFlight) (st : Status) (n : ℕ) (c z : Bool) (payload : List ℕ)
      (s : ExporterSession T P D)
      → books (emit_complete over f st n c z payload s).0 ≡ with_answer f (books s)
  unfolding emit_complete refuse send_record
  emit_complete-books f st n c z payload s = ground arith

  pub acknowledge-books :
      (st : Status) (request_id : ℕ) (s : ExporterSession T P D)
      → books (acknowledge over st request_id s) ≡ books s
  unfolding acknowledge send_simple send_record
  acknowledge-books st request_id s = ground arith

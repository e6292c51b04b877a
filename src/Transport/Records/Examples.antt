-- ===== src/Transport/Records/Examples.antt =====
-- The theorems of the record layer at concrete inputs.
use airusb_hub.Base.{ℕ, ◌+◌, ◌<◌, ◌≡◌, refl, List, [], ◌∷◌, ◌++◌, arith, All, length}
use airusb_hub.Core.Status.{ok}
use airusb_hub.Transport.Records.{
  null_cipher, RecordLayer, Read, Written, room, new_layer, send_record, receive_record,
  take_record, absorb, flush,
}
use airusb_hub.Transport.Records.Sending.{pending, frames, send_all, send_all-frames}
use airusb_hub.Transport.Records.Receiving.{bytes_of, Flows, or_wait, receive_record-bytes}
use airusb_hub.Transport.Records.Receiving.Bounds.{receive_record-small}
use airusb_hub.Transport.Records.Delivery.{IsPaired, receive_times, receive_times-send_all}

abbrev new_side : RecordLayer (Unit {0})
new_side = new_layer tt

-- `NullCipher` is always in step with itself.
abbrev Synced : ℕ → Unit {0} → Unit {0} → Type 0
Synced n c d = Unit {0}

null_cipher-IsPaired : IsPaired null_cipher null_cipher Synced
null_cipher-IsPaired = record {
  same = refl;
  sized = λ n c d body s. omega arith;
  opens = λ n c d body s. (refl, refl, tt);
}

-- Two records, the first of which the stream takes in two parts.
abbrev two_calls : List (List ℕ × List Written)
two_calls = (1 ∷ 2 ∷ 3 ∷ [], room 5 ∷ room 0 ∷ []) ∷ (9 ∷ [], room 100 ∷ []) ∷ []

-- What the stream brings: the bytes of both, cut in the middle of the first length.
abbrev three_reads : List Read
three_reads =
    record { bytes = 3 ∷ 0 ∷ []; status = ok }
    ∷ record { bytes = 0 ∷ 0 ∷ 1 ∷ 2 ∷ []; status = ok }
    ∷ record { bytes = 3 ∷ 1 ∷ 0 ∷ 0 ∷ 0 ∷ 9 ∷ []; status = ok }
    ∷ []

three_reads-Flows : All Flows three_reads
three_reads-Flows = ((refl, omega arith), ((refl, omega arith), ((refl, omega arith), tt)))

send_all-frames_example :
    (send_all null_cipher two_calls new_side).2
      ++ pending (send_all null_cipher two_calls new_side).0
    ≡ frames null_cipher tt ((1 ∷ 2 ∷ 3 ∷ []) ∷ (9 ∷ []) ∷ [])
unfolding send_all send_record flush frames new_layer
send_all-frames_example =
    send_all-frames null_cipher two_calls new_side (omega arith) (refl, (refl, tt))

receive_record-bytes_example :
    let whole = absorb (bytes_of three_reads) new_side in
    let (done, left) = receive_record null_cipher new_side three_reads in
    (absorb (bytes_of left) done.0, done.1, done.2) ≡ or_wait whole (take_record null_cipher whole)
unfolding bytes_of receive_record take_record new_layer
receive_record-bytes_example =
    receive_record-bytes null_cipher three_reads new_side refl three_reads-Flows

receive_record-small_example :
    length (receive_record null_cipher new_side three_reads).0.0.rx < 4 + 8192 + 6
unfolding receive_record new_layer
receive_record-small_example =
    receive_record-small null_cipher three_reads new_side 6
      (omega arith, (omega arith, (omega arith, tt))) (omega arith)

receive_times-send_all_example :
    (receive_times null_cipher null_cipher Synced null_cipher-IsPaired 2 new_side three_reads).1
    ≡ (1 ∷ 2 ∷ 3 ∷ []) ∷ (9 ∷ []) ∷ []
unfolding receive_times receive_record send_all send_record flush new_layer bytes_of
receive_times-send_all_example =
    receive_times-send_all null_cipher null_cipher Synced null_cipher-IsPaired two_calls new_side
      new_side three_reads (omega arith) refl (refl, (refl, tt)) tt (omega arith, (omega arith, tt))
      (omega arith) refl refl three_reads-Flows refl

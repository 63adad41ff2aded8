-- ===== src/Watch/Tests.antt =====
-- The tail poll with one file that grew and one that did not.
use burnmon.Base.{
  ℕ, ◌≤◌, ◌*◌, if◌then◌else◌, String, true, false, Option, none, some, [], ◌∷◌, ◌≡◌, refl, length,
  any, ◌==◌, string_eq, arith, not, ◌&&◌, minute, sub_time,
}
use burnmon.Watch.{Watcher, is_transcript_path, live, is_idle, poll_tail_once}
use burnmon.Watch.Laws.{has_moved, poll_quiet, poll_reports}

transcripts_test :
    (is_transcript_path "C:\\logs\\A.JSONL" ≡ true)
    × (is_transcript_path "C:\\logs/Audit.jsonl" ≡ false)
    × (is_transcript_path "/home/uploads/a.jsonl" ≡ false)
    × (is_transcript_path "/home/uploads.jsonl" ≡ true)
unfolding is_transcript_path
transcripts_test = (refl, refl, refl, refl)

abbrev size_of : String → Option ℕ
size_of p = if p == "a" then some 9 else if p == "b" then some 4 else none

abbrev tailed : Watcher
tailed = record {
  tail =
      record { path = "a"; active = minute; size = some 7 }
      ∷ record { path = "b"; active = minute; size = some 4 }
      ∷ record { path = "gone"; active = 0; size = none }
      ∷ [];
  native_roots = [];
  cap_logged = 0;
}

poll_test : (poll_tail_once (61 * minute) size_of tailed).1 ≡ "a" ∷ []
unfolding poll_tail_once sub_time
poll_test = refl

few : length (live minute tailed.tail) ≤ 50
unfolding live is_idle sub_time
few = omega arith

poll_quiet_example :
    (poll_tail_once (2 * minute) size_of (poll_tail_once minute size_of tailed).0).1 ≡ []
poll_quiet_example =
    poll_quiet minute (2 * minute) size_of tailed ((refl, (refl, tt)), ((refl, tt), (tt, tt))) few

poll_reports_example :
    any (λ q. q == "a") (poll_tail_once minute size_of tailed).1
    ≡ any (λ e. not (is_idle minute e) && (e.path == "a" && has_moved size_of e)) tailed.tail
poll_reports_example = poll_reports minute size_of tailed "a" few

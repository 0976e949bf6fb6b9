-- ===== src/Codec/Tests.antt =====
-- A run of the codec of gokit/transport/pool/rpc/timeout_codec.go with two requests, of which the
-- older one times out, and the theorems at this run.
use jkfr.Prelude.{
  ℕ, ◌+◌, ◌≡◌, refl, true, false, not, Option, none, some, [], ◌∷◌, map, arith, delete, elem,
  remove, filter,
}
use jkfr.Codec.{
  TimeoutCodec, new_timeout_codec, push_req, get_timeout_req, remove_req, set_deadline, is_timeout,
  write_request, get_timeout_request, header, read_response_header, skipped, read_response_body,
}
use jkfr.Codec.Sound.{
  IsSound, Reach, made_new, waits, steps, pushes, removes, codec_reached-IsSound, seq_of,
}
use jkfr.Codec.Timeouts.{first_timeout, get_timeout_req-first}
use jkfr.Codec.Write.{IsSent, IsUnsent, write_request-all}
use jkfr.Codec.Input.{answer_timeouts, answer_timeouts-all}
use jkfr.Codec.Waiting.{stopped, waiting, Step-Change}

what_runs : Unit {0}
unfolding new_timeout_codec push_req get_timeout_req remove_req set_deadline write_request
    get_timeout_request read_response_header read_response_body delete elem remove first_timeout
    filter answer_timeouts
what_runs = tt

abbrev empty : TimeoutCodec
empty = new_timeout_codec 10 5

abbrev one : TimeoutCodec
one = push_req 100 1 7 empty

abbrev two : TimeoutCodec
two = push_req 105 2 8 one

abbrev unsent : Option ℕ
unsent = some 4

two_reached : Reach 10 5 112 two
unfolding what_runs
two_reached = waits 105 112 two (omega arith) (
    steps 105 one two
      (waits 100 105 one (omega arith) (steps 100 empty one (made_new 100) (pushes 1 7 empty refl)))
      (pushes 2 8 one refl))

two_listed : two.li_rpc_req ≡ 1 ∷ 2 ∷ []
unfolding what_runs
two_listed = refl

older_found : (get_timeout_req 112 two).1 ≡ some 1
unfolding what_runs
older_found = refl

both_answered : (answer_timeouts 3 116 (header 9) two).1 ≡ (1, skipped) ∷ (2, skipped) ∷ []
unfolding what_runs
both_answered = refl

codec_reached-IsSound_example : IsSound 112 two
codec_reached-IsSound_example = codec_reached-IsSound 10 5 112 two two_reached

get_timeout_req-first_example :
    ((get_timeout_req 112 two).1 ≡ first_timeout 112 two two.li_rpc_req)
    × ((get_timeout_req 112 two).1 ≡ none
        → (p : ℕ) → elem p two.li_rpc_req ≡ true
        → is_timeout 112 two p ≡ false)
get_timeout_req-first_example = get_timeout_req-first 10 5 112 two two_reached

write_request-all_example :
    ((write_request (λ k. 112 + k) unsent 3 9 two).1 ≡ unsent)
    × (unsent ≡ none → IsSent 112 113 3 9 two (write_request (λ k. 112 + k) unsent 3 9 two).0)
    × ((e : ℕ) → unsent ≡ some e → IsUnsent two (write_request (λ k. 112 + k) unsent 3 9 two).0)
unfolding what_runs
write_request-all_example =
    write_request-all 10 5 112 (λ k. 112 + k) unsent 3 9 two two_reached refl

answer_timeouts-all_example :
    let (d, answers) = answer_timeouts 3 112 (header 9) two in
    (answers ≡ map (λ p. (seq_of two p, skipped)) (filter (is_timeout 112 two) two.li_rpc_req))
    × (d.li_rpc_req ≡ filter (λ p. not (is_timeout 112 two p)) two.li_rpc_req)
unfolding what_runs
answer_timeouts-all_example =
    answer_timeouts-all 10 5 112 (header 9) 3 two two_reached (omega arith)

Step-Change_example : waiting (remove_req 1 two).0 ≡ stopped 1 (waiting two)
Step-Change_example = Step-Change 10 5 112 two (remove_req 1 two).0 two_reached (removes 1 two)

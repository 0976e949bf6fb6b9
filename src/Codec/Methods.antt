-- ===== src/Codec/Methods.antt =====
-- The methods of the codec of gokit/transport/pool/rpc/timeout_codec.go are sequences of the steps of a
-- history, which those of other goroutines may come between.
use jkfr.Prelude.{
  ℕ, ◌+◌, ◌≤◌, ◌≡◌, Bool, true, false, ◌&&◌, Option, none, some, lookup, subst, if◌then◌else◌,
}
use jkfr.Codec.{
  TimeoutCodec, push_req, remove_req, set_deadline, get_timeout_req, write_request, Inner, header,
  header_error, timeout_answer, get_timeout_request, or_inner, keep_seq, read_response_header,
  BodyRead, skipped, read, is_timed_out, read_response_body,
}
use jkfr.Codec.Sound.{
  Reach, waits, steps, pushes, removes, searches, limits, keeps_seq, limits_read, marks_reading,
}
use jkfr.Codec.Round.{remove_req-kept}

module _ (rt wt : ℕ) where
  -- A step at a later time.
  set_deadline-Reach :
      (t later : ℕ) (c : TimeoutCodec)
      → t ≤ later
      → Reach rt wt t c
      → Reach rt wt later (set_deadline later c)
  set_deadline-Reach t later c h r =
      steps later c (set_deadline later c) (waits t later c h r) (limits c)

  -- WriteRequest, read at three times that do not run back.
  pub write_request-Reach :
      (t seq n : ℕ) (now : ℕ → ℕ) (sent : Option ℕ) (c : TimeoutCodec)
      → t ≤ now 0
      → now 0 ≤ now 1
      → now 1 ≤ now 2
      → lookup seq c.seq2em ≡ none
      → Reach rt wt t c
      → Reach rt wt (now 2) (write_request now sent seq n c).0
  unfolding write_request
  write_request-Reach t seq n now sent c h h' h'' free r = by sent
    where
      c1 : TimeoutCodec
      c1 = push_req (now 0) seq n c

      c2 : TimeoutCodec
      c2 = set_deadline (now 1) c1

      pushed : Reach rt wt (now 1) c2
      pushed =
          set_deadline-Reach (now 0) (now 1) c1 h'
            (steps (now 0) c c1 (waits t (now 0) c h r) (pushes seq n c free))

      by : (o : Option ℕ) → Reach rt wt (now 2) (write_request now o seq n c).0
      by none = waits (now 1) (now 2) c2 h'' pushed
      by (some e) =
          set_deadline-Reach (now 1) (now 2) (remove_req seq c2).0 h''
            (steps (now 1) c2 (remove_req seq c2).0 pushed (removes seq c2))

  pub read_response_header-Reach :
      (t : ℕ) (now : ℕ → ℕ) (inner : Inner) (c : TimeoutCodec)
      → t ≤ now 0
      → now 0 ≤ now 1
      → Reach rt wt t c
      → Reach rt wt (now 1) (read_response_header now inner c).0
  unfolding read_response_header get_timeout_request
  read_response_header-Reach t now inner c h h' r = by (get_timeout_req (now 0) c).1
    where
      c1 : TimeoutCodec
      c1 = (get_timeout_req (now 0) c).0

      searched : Reach rt wt (now 0) c1
      searched = steps (now 0) c c1 (waits t (now 0) c h r) (searches c)

      limited : Reach rt wt (now 1) (set_deadline (now 1) c1)
      limited = set_deadline-Reach (now 0) (now 1) c1 h' searched

      kept : (i : Inner) → Reach rt wt (now 1) (keep_seq i (set_deadline (now 1) c1))
      kept (header seq) =
          steps (now 1) (set_deadline (now 1) c1) _ limited
            (keeps_seq seq (set_deadline (now 1) c1))
      kept (header_error e) = limited

      by : (o : Option ℕ) → Reach rt wt (now 1) (or_inner (now 1) inner (timeout_answer (c1, o))).0
      by none = kept inner
      by (some p) =
          let seq = (c1.store p).seq in
          waits (now 0) (now 1) _ h' (steps (now 0) c1 _ searched (keeps_seq seq c1))

  pub read_response_body-Reach :
      (t now : ℕ) (is_nil : Bool) (inner : Option ℕ) (c : TimeoutCodec)
      → t ≤ now
      → Reach rt wt t c
      → Reach rt wt now (read_response_body now is_nil inner c).0
  unfolding read_response_body
  read_response_body-Reach t now is_nil inner c h r =
      by (is_nil && is_timed_out c1 (remove_req c.header_seq c).1)
    where
      c1 : TimeoutCodec
      c1 = (remove_req c.header_seq c).0

      removed : Reach rt wt now c1
      removed = steps now c c1 (waits t now c h r) (removes c.header_seq c)

      unread :
          Reach rt wt now
            (record c1 { read_deadline = some (now + c1.read_timeout); is_reading_body = false })
      unread =
          steps now _ _
            (steps now _ _ (steps now c1 _ removed (marks_reading true c1)) (limits_read _))
            (marks_reading false _)

      by :
          (b : Bool)
          → Reach rt wt now
              (if◌then◌else◌ {A = TimeoutCodec × BodyRead} b
                (c1, skipped)
                (
                  record c1 {
                    read_deadline = some (now + c.read_timeout);
                    is_reading_body = false;
                  },
                  read inner,
                )).0
      by true = removed
      by false =
          subst
            (λ timeout.
              Reach rt wt now
                (record c1 { read_deadline = some (now + timeout); is_reading_body = false }))
            (remove_req-kept c.header_seq c).1 unread

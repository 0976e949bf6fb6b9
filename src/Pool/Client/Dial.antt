-- ===== src/Pool/Client/Dial.antt =====
-- Connect and Close of `client` in gokit/transport/pool/pool.go.
use jkfr.Prelude.{
  ℕ, ◌-◌, ◌<◌, ◌≤◌, ◌≡◌, refl, sym, subst, inl, inr, true, false, Option, none, some, arith, ltb,
  Bool-cases, ltb→lt,
}
use jkfr.Pool.Options.{Error, err_closed, second}
use jkfr.Pool.Client.{
  Client, Dialed, Env, Connected, connect, connect_check, connect_locked, dialed, is_open,
  IsFactory,
}

-- Where Connect dials: the client is not destroyed, not connected, and was last dialed for at least a
-- second ago.
pub record IsDue (env : Env) (c : Client) : Type 0 where
  pub alive : c.destroyed ≡ false
  pub unconnected : is_open c ≡ false
  pub rested : second ≤ env.now - c.conn_tm

-- How a call of Connect ends; the cases exclude each other.
pub data Ending (env : Env) (tag : ℕ) (c : Client) : Connected → Type 0 where
  -- a destroyed client is refused
  refused : c.destroyed ≡ true → Ending env tag c (c, false, some err_closed)
  -- a connected client is left as it is
  kept : c.destroyed ≡ false → is_open c ≡ true → Ending env tag c (c, false, none)
  -- within a second of the last dial the last dial's error is returned again
  limited :
      c.destroyed ≡ false
      → is_open c ≡ false
      → env.now - c.conn_tm < second
      → Ending env tag c (c, false, c.err)
  -- a dial that fails, and one that succeeds
  broken :
      (c' : Client)
      → IsDue env c
      → is_open c' ≡ false
      → c'.index ≡ c.index
      → c'.ref ≡ c.ref
      → c'.conn_tm ≡ env.now
      → (e : Error) → (env.dial tag).err ≡ some e
      → Ending env tag c (c', false, some e)
  opened :
      (c' : Client)
      → IsDue env c
      → (env.dial tag).err ≡ none
      → is_open c' ≡ true
      → c'.index ≡ c.index
      → c'.ref ≡ c.ref
      → c'.handle ≡ (env.dial tag).handle
      → Ending env tag c (c', true, none)

dialed-Ending :
    (env : Env) (tag : ℕ) (c : Client) (d : Dialed) (e : Option Error)
    → env.dial tag ≡ d
    → d.err ≡ e
    → IsFactory d
    → IsDue env c
    → Ending env tag c (dialed env c d)
unfolding dialed
dialed-Ending env tag c d none p q f o = rw q (opened _ o (rw p q) (ground arith) refl refl (rw p))
dialed-Ending env tag c d (some e) p q f o =
    rw q (broken _ o (ground arith) refl refl refl e (rw p q))

-- If the factory returns either an error or a connection, Connect refuses a destroyed client, leaves a
-- connected one alone, repeats the last error within a second of the last dial, and otherwise reports
-- the dial's error with a client that is not connected, or a new connection.
pub connect-Ending :
    (env : Env) (tag : ℕ) (c : Client)
    → IsFactory (env.dial tag)
    → Ending env tag c (connect env tag c)
unfolding connect connect_check connect_locked
connect-Ending env tag c f = elim (Bool-cases c.destroyed) [
  | inl d ↦ simp (d, connect) (refused d)
  | inr d ↦ elim (Bool-cases (is_open c)) [
    | inl o ↦ simp (d, o, connect) (kept d o)
    | inr o ↦ elim (Bool-cases (ltb (env.now - c.conn_tm) second)) [
      | inl l ↦ simp (d, o, l, connect) (limited d o (ltb→lt _ _ l))
      | inr l ↦
          subst (Ending env tag c) (sym (reached d o l))
            (dialed-Ending env tag c _ _ refl refl f (due d o l))
    ]
  ]
]
  where
    due :
        c.destroyed ≡ false
        → is_open c ≡ false
        → ltb (env.now - c.conn_tm) second ≡ false
        → IsDue env c
    due d o l = record { alive = d; unconnected = o; rested = ground arith }

    reached :
        c.destroyed ≡ false
        → is_open c ≡ false
        → ltb (env.now - c.conn_tm) second ≡ false
        → connect env tag c ≡ dialed env c (env.dial tag)
    reached d o l = ground arith

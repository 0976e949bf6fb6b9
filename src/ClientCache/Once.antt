-- ===== src/ClientCache/Once.antt =====
-- The goroutines that run GetRPCClient of gokit/transport/rpc/client.go agree on the client of a name.
use jkfr.Prelude.{ℕ, ◌≤◌, ◌≡◌, refl, sym, ◌∙◌, subst, Bool, none, some, arith, lookup}
use jkfr.ClientCache.{
  Phase, called, waiting, locked, missed, created, saved, returned, failed, NamedClients,
  no_clients, advanced, get_rpc_client,
}
use jkfr.ClientCache.Keep.{
  Fits, IsKept, IsSound, held-IsSound, first_look-IsSound, locks-IsSound, second_look-IsSound,
  creates-IsSound, saves-IsSound,
}

-- What a history of calls of GetRPCClient leads to.
pub data Reach : NamedClients → Type 0 where
  begins : Reach no_clients
  runs : (t name : ℕ) (ok : Bool) (s : NamedClients) → Reach s → Reach (get_rpc_client t name ok s)

-- A phase other than `created`.
abbrev IsCreated : Phase → Type 0
IsCreated (created n c) = Unit {0}
IsCreated p = ⊥

advanced-IsSound :
    (t name : ℕ) (ok : Bool) (s : NamedClients) (p : Phase)
    → s.at t ≡ p
    → IsSound s
    → Fits s.holder s.name2client t p
    → IsSound (advanced t name ok s p)
advanced-IsSound t name ok s called e v f =
    first_look-IsSound t name (lookup name s.name2client) s v refl
      (λ n c h. subst IsCreated (sym (sym e ∙ h)) tt)
advanced-IsSound t name ok s (waiting m) e v f =
    locks-IsSound t m s.holder s v refl (λ n c h. subst IsCreated (sym (sym e ∙ h)) tt)
advanced-IsSound t name ok s (locked m) e v f =
    second_look-IsSound t m (lookup m s.name2client) s v f refl
      (λ n c h. subst IsCreated (sym (sym e ∙ h)) tt)
advanced-IsSound t name ok s (missed m) e v f =
    creates-IsSound t m ok s v f (λ n c h. subst IsCreated (sym (sym e ∙ h)) tt)
advanced-IsSound t name ok s (created m d) e v f = saves-IsSound t m d s v f e
advanced-IsSound t name ok s (saved m d) e v f =
    held-IsSound s t (returned m d) none v f.0 f.1 (λ n c h. subst IsCreated (sym (sym e ∙ h)) tt)
advanced-IsSound t name ok s (returned m d) e v f = v
advanced-IsSound t name ok s failed e v f = v

Reach-IsSound : (s : NamedClients) → Reach s → IsSound s
unfolding get_rpc_client
Reach-IsSound _ begins = record { fits = λ t. tt; kept = λ c lo hi. absurd (none_made c lo hi) }
  where
    none_made : (c : ℕ) → 1 ≤ c → c ≤ 0 → ⊥
    none_made c lo hi = omega arith
Reach-IsSound _ (runs t name ok s r) =
    let v = Reach-IsSound s r in advanced-IsSound t name ok s (s.at t) refl v (v.fits t)

-- The phases between Lock and Unlock of mtNewClient.
abbrev pub IsInside : Phase → Type 0
IsInside (locked n) = Unit {0}
IsInside (missed n) = Unit {0}
IsInside (created n c) = Unit {0}
IsInside (saved n c) = Unit {0}
IsInside p = ⊥

inside-holder :
    (s : NamedClients) (t : ℕ) (p : Phase)
    → Fits s.holder s.name2client t p
    → IsInside p
    → s.holder ≡ some t
inside-holder s t called v i = absurd i
inside-holder s t (waiting n) v i = absurd i
inside-holder s t (locked n) v i = v
inside-holder s t (missed n) v i = v.0
inside-holder s t (created n c) v i = v.0
inside-holder s t (saved n c) v i = v.0
inside-holder s t (returned n c) v i = absurd i
inside-holder s t failed v i = absurd i

-- However the steps of the goroutines that call GetRPCClient interleave, two that have returned a client
-- of the same name have returned the same client, no two are between Lock and Unlock of mtNewClient,
-- and every client that NewClient has made is in the map or about to be saved by the goroutine that
-- made it.
pub get_rpc_client-once :
    (s : NamedClients)
    → Reach s
    → ((t u n c d : ℕ) → s.at t ≡ returned n c → s.at u ≡ returned n d → c ≡ d)
      × ((t u : ℕ) → IsInside (s.at t) → IsInside (s.at u) → t ≡ u)
      × ((c : ℕ) → 1 ≤ c → c ≤ s.made → IsKept s c)
get_rpc_client-once s r =
    let v = Reach-IsSound s r in
    (
      λ t u n c d e h.
          let both : some c ≡ some d =
            sym (subst (Fits _ _ t) e (v.fits t)) ∙ subst (Fits _ _ u) h (v.fits u) in
          cc,
      λ t u i j.
          let both : some t ≡ some u =
            sym (inside-holder s t (s.at t) (v.fits t) i)
            ∙ inside-holder s u (s.at u) (v.fits u) j in
          cc,
      v.kept,
    )

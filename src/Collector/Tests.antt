-- ===== src/Collector/Tests.antt =====
-- Keys of prometheus/utils/utils.go, and the theorem at them.
use jkfr.Prelude.{◌≡◌, refl, [], ◌∷◌}
use mathlib.Core.List.Perm
use jkfr.HostAddr.{Text}
use jkfr.Collector.{text_le, insert_text, sort_texts, join, marshal_key}
use jkfr.Collector.Keys.{marshal_key-Perm}

what_runs : Unit {0}
unfolding text_le insert_text sort_texts join marshal_key
what_runs = tt

-- "A", "B" and "c"
abbrev a : Text
a = 65 ∷ []

abbrev b : Text
b = 66 ∷ []

abbrev c : Text
c = 99 ∷ []

-- "A_B_c"
key_joined : marshal_key c (b ∷ a ∷ []) ≡ 65 ∷ 95 ∷ 66 ∷ 95 ∷ 99 ∷ []
unfolding what_runs
key_joined = refl

-- The joining character does not separate either.
texts_run_together :
    marshal_key (65 ∷ 95 ∷ 66 ∷ []) (c ∷ []) ≡ marshal_key a ((66 ∷ 95 ∷ 99 ∷ []) ∷ [])
unfolding what_runs
texts_run_together = refl

marshal_key-Perm_example :
    (marshal_key c (a ∷ b ∷ []) ≡ marshal_key c (b ∷ a ∷ []))
    × (marshal_key c (b ∷ a ∷ b ∷ []) ≡ marshal_key b (c ∷ b ∷ a ∷ []))
marshal_key-Perm_example = marshal_key-Perm c b (a ∷ b ∷ []) (b ∷ a ∷ []) (Perm.swap b a [])

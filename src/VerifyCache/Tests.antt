-- ===== src/VerifyCache/Tests.antt =====
-- The cache under concrete calls, with keys that spell the triple out.
use Prim.Native.String.{◌++◌ as append}
use mathlib.Core.Bool.{false≢true}
use rapido_go.Prelude.{
  ◌≤◌, ◌+ℤ◌, pos, String, true, ◌==◌, string_eq, nat_eq, some, List, [], ◌∷◌, length, ◌≡◌, refl,
  eq_iff, arith, All,
}
use rapido_go.VerifyCache.{Crypto, verify, cached, remember, verify_max_entries}
use rapido_go.VerifyCache.Verdicts.{Call, IsUnshared, remember_all, verify_lem, length-remember_all}
use rapido_go.VerifyCache.Bound.{cached-remember}

abbrev spelled : Crypto
spelled = record {
  Key = String;
  keys = string_eq;
  key = λ u p h. append u (append "/" (append p (append "/" h)));
  verify = λ p h. p == h;
}

abbrev calls : List Call
calls =
    record { victim = 0; username = "ann"; plain = "typo"; hashed = "pw"; now = pos 5 }
    ∷ record { victim = 0; username = "ann"; plain = "pw"; hashed = "pw"; now = pos 9 }
    ∷ []

calls-AreUnshared : All (IsUnshared spelled "ann" "pw" "pw") calls
calls-AreUnshared =
    (λ e. absurd (false≢true ((eq_iff "ann/typo/pw" "ann/pw/pw").1 e)), (λ e. (refl, refl), tt))

verify_lem_example :
    (verify spelled 0 "ann" "pw" "pw" (pos 10) (remember_all spelled calls [])).1 ≡ true
verify_lem_example = verify_lem spelled calls 0 "ann" "pw" "pw" (pos 10) calls-AreUnshared

length-remember_all_example : length (remember_all spelled calls []) ≤ verify_max_entries
length-remember_all_example = length-remember_all spelled calls [] (omega arith)

cached-remember_example :
    cached {K = String} (remember {K = String} 0 "k" true (pos 0) []) "k" (pos 7) ≡ some true
unfolding ◌+ℤ◌
cached-remember_example = cached-remember 0 "k" "k" true (pos 0) (pos 7) [] (omega arith)

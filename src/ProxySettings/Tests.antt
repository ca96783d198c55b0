-- ===== src/ProxySettings/Tests.antt =====
-- A codec that can be run, and some settings.
use Prim.Native.Char.{Char, char, code}
use Prim.Native.Nat.{Ordering, compare}
use rapido_go.Prelude.{
  ℕ, zero, suc, String, Option, none, some, [], ◌∷◌, ◌≡◌, ◌≢◌, refl, ap, ◌∙◌, arith, eq_iff,
}
use rapido_go.Prelude.Bytes.{Bytes, bytes}
use rapido_go.ProxySettings.{
  vless, trojan, Settings, for_vless, for_trojan, type_of, Json, Codecs, Fresh, from_stored,
  from_wire, parse, has_settings, marshal, revoke, VmessSettings, VlessSettings, TrojanSettings,
  ShadowsocksSettings, Hysteria2Settings, TuicSettings, SnellSettings, AnytlsSettings,
}
use rapido_go.ProxySettings.Stored.{
  IsComplete, HasFlow, IsFresh, from_stored-marshal, from_wire_lem, revoke_stored,
  from_stored_random,
}

-- The clauses of Prim.Native.Char.IsScalar.
abbrev Less : Ordering → Type 0
Less Ordering.lt = Unit
Less Ordering.eq = ⊥
Less Ordering.gt = ⊥

abbrev Both : Ordering → Ordering → Type 0
Both Ordering.lt o = Less o
Both Ordering.eq _ = ⊥
Both Ordering.gt _ = ⊥

abbrev Scalar : Ordering → Ordering → Ordering → Type 0
Scalar Ordering.lt _ _ = Unit
Scalar Ordering.eq o p = Both o p
Scalar Ordering.gt o p = Both o p

abbrev find_less : (o : Ordering) → Option (Less o)
find_less Ordering.lt = some tt
find_less Ordering.eq = none
find_less Ordering.gt = none

abbrev find_both : (o p : Ordering) → Option (Both o p)
find_both Ordering.lt p = find_less p
find_both Ordering.eq p = none
find_both Ordering.gt p = none

abbrev find_scalar : (o p q : Ordering) → Option (Scalar o p q)
find_scalar Ordering.lt p q = some tt
find_scalar Ordering.eq p q = find_both p q
find_scalar Ordering.gt p q = find_both p q

found_less : (o : Ordering) (h : Less o) → find_less o ≡ some h
found_less Ordering.lt h = refl
found_less Ordering.eq h = absurd h
found_less Ordering.gt h = absurd h

found_both : (o p : Ordering) (h : Both o p) → find_both o p ≡ some h
found_both Ordering.lt p h = found_less p h
found_both Ordering.eq p h = absurd h
found_both Ordering.gt p h = absurd h

found_scalar : (o p q : Ordering) (h : Scalar o p q) → find_scalar o p q ≡ some h
found_scalar Ordering.lt p q h = refl
found_scalar Ordering.eq p q h = found_both p q h
found_scalar Ordering.gt p q h = found_both p q h

abbrev with_proof :
    (n : ℕ) → Option (Scalar (compare n 55296) (compare 57343 n) (compare n 1114112)) → Option Char
with_proof n none = none
with_proof n (some h) = some (char n h)

abbrev char_of : ℕ → Option Char
char_of n = with_proof n (find_scalar (compare n 55296) (compare 57343 n) (compare n 1114112))

char_of-code : (c : Char) → char_of (code c) ≡ some c
char_of-code (char n h) =
    ap (with_proof n) (found_scalar (compare n 55296) (compare 57343 n) (compare n 1114112) h)

-- Two texts: each character of the first one behind a 1, then a 0 and the second one.
abbrev joined : Option Char → Option String → Option String
joined none o = none
joined (some c) none = none
joined (some c) (some s) = some (String.◌∷◌ c s)

abbrev text_of : Bytes → Option String
text_of [] = some String.[]
text_of (c ∷ s) = joined (char_of c) (text_of s)

text_of-bytes : (s : String) → text_of (bytes s) ≡ some s
text_of-bytes String.[] = refl
text_of-bytes (String.◌∷◌ c s) = rw (char_of-code c) (rw (text_of-bytes s) refl)

abbrev Pair : Type 0
Pair = String × String

abbrev write_pair : String → String → Bytes
write_pair String.[] b = 0 ∷ bytes b
write_pair (String.◌∷◌ c s) b = 1 ∷ code c ∷ write_pair s b

abbrev second_of : Option String → Option Pair
second_of none = none
second_of (some b) = some (String.[], b)

abbrev first_joined : Option Char → Option Pair → Option Pair
first_joined none o = none
first_joined (some c) none = none
first_joined (some c) (some (s, b)) = some (String.◌∷◌ c s, b)

abbrev read_pair : Bytes → Option Pair
read_pair [] = none
read_pair (zero ∷ s) = second_of (text_of s)
read_pair (suc k ∷ []) = none
read_pair (suc k ∷ c ∷ s) = first_joined (char_of c) (read_pair s)

read_pair-write_pair : (a b : String) → read_pair (write_pair a b) ≡ some (a, b)
read_pair-write_pair String.[] b = rw (text_of-bytes b) refl
read_pair-write_pair (String.◌∷◌ c s) b = rw (char_of-code c) (rw (read_pair-write_pair s b) refl)

abbrev behind_brace : Bytes → Option Pair
behind_brace [] = none
behind_brace (c ∷ s) = read_pair s

abbrev pair_map : {S : Type 0} → (Pair → S) → Option Pair → Option S
pair_map f none = none
pair_map f (some p) = some (f p)

module _ {S : Type 0} (fields : S → Pair) (from : Pair → S)
    (same : (s : S) → from (fields s) ≡ s) where
  abbrev json : Json S
  json = record {
    encode = λ s. b'{' ∷ write_pair (fields s).0 (fields s).1;
    decode = λ raw. pair_map from (behind_brace raw);
    decode-encode =
        λ s. ap (pair_map from) (read_pair-write_pair (fields s).0 (fields s).1) ∙ ap some (same s);
    encode_object = λ s. (write_pair (fields s).0 (fields s).1, refl);
  }

abbrev codecs : Codecs
codecs = record {
  vmess_json = json {S = VmessSettings} (λ s. (s.id, "")) (λ p. record { id = p.0 }) (λ s. refl);
  vless_json =
      json {S = VlessSettings} (λ s. (s.id, s.flow)) (λ p. record { id = p.0; flow = p.1 })
        (λ s. refl);
  trojan_json =
      json {S = TrojanSettings} (λ s. (s.password, s.flow))
        (λ p. record { password = p.0; flow = p.1 }) (λ s. refl);
  shadowsocks_json =
      json {S = ShadowsocksSettings} (λ s. (s.password, s.method))
        (λ p. record { password = p.0; method = p.1 }) (λ s. refl);
  hysteria2_json =
      json {S = Hysteria2Settings} (λ s. (s.password, "")) (λ p. record { password = p.0 })
        (λ s. refl);
  tuic_json =
      json {S = TuicSettings} (λ s. (s.id, s.password)) (λ p. record { id = p.0; password = p.1 })
        (λ s. refl);
  snell_json =
      json {S = SnellSettings} (λ s. (s.user_key, "")) (λ p. record { user_key = p.0 }) (λ s. refl);
  anytls_json =
      json {S = AnytlsSettings} (λ s. (s.password, "")) (λ p. record { password = p.0 })
        (λ s. refl);
}

abbrev fresh : Fresh
fresh = record { uuid = "7f0c"; password = "aGVs" }

abbrev later : Fresh
later = record { uuid = "91d2"; password = "bG8x" }

fresh-IsFresh : IsFresh fresh
fresh-IsFresh =
    (λ e. ground (arith, (eq_iff "7f0c" "").1 e), λ e. ground (arith, (eq_iff "aGVs" "").1 e))

later-IsFresh : IsFresh later
later-IsFresh =
    (λ e. ground (arith, (eq_iff "91d2" "").1 e), λ e. ground (arith, (eq_iff "bG8x" "").1 e))

abbrev plain_vless : Settings
plain_vless = for_vless (record { id = "u1"; flow = "" })

plain-IsComplete : IsComplete plain_vless
plain-IsComplete = λ e. ground (arith, (eq_iff "u1" "").1 e)

from_stored-marshal_example :
    from_stored codecs fresh vless (marshal codecs plain_vless) ≡ some plain_vless
from_stored-marshal_example = from_stored-marshal codecs fresh plain_vless plain-IsComplete

-- A request with no settings at all.
sent :
    from_wire codecs fresh vless []
    ≡ some (for_vless (record { id = "7f0c"; flow = "xtls-rprx-vision" }))
unfolding parse has_settings
sent = refl

from_wire_lem_example :
    (type_of (for_vless (record { id = "7f0c"; flow = "xtls-rprx-vision" })) ≡ vless)
    × IsComplete (for_vless (record { id = "7f0c"; flow = "xtls-rprx-vision" }))
    × HasFlow (for_vless (record { id = "7f0c"; flow = "xtls-rprx-vision" }))
from_wire_lem_example =
    from_wire_lem codecs fresh vless []
      (for_vless (record { id = "7f0c"; flow = "xtls-rprx-vision" })) fresh-IsFresh sent

revoke_stored_example :
    (from_stored codecs fresh vless (marshal codecs (revoke later plain_vless))
      ≡ some (revoke later plain_vless))
    × IsComplete (revoke later plain_vless)
    × ((f : Fresh) → revoke f (revoke later plain_vless) ≡ revoke f plain_vless)
revoke_stored_example = revoke_stored codecs fresh later plain_vless later-IsFresh plain-IsComplete

from_stored_random_example :
    from_stored codecs fresh trojan
      (marshal codecs (for_trojan (record { password = ""; flow = "" })))
    ≢ from_stored codecs later trojan
        (marshal codecs (for_trojan (record { password = ""; flow = "" })))
from_stored_random_example =
    from_stored_random codecs fresh later "" (λ e. ground (arith, (eq_iff "aGVs" "bG8x").1 e))

-- ===== src/Subscription/Utf8.antt =====
-- What internal/subscription/token.go uses of unicode/utf8: utf8.Valid.
use rapido_go.Prelude.{
  ℕ, zero, suc, ◌<◌, ◌≡◌, refl, Bool, true, false, ◌&&◌, Option, none, some, ◌==◌, nat_eq, [], ◌∷◌,
  ◌++◌, All, ltb, leb, if◌then◌else◌, arith,
}
use rapido_go.Prelude.Bytes.{Bytes}
use rapido_go.Subscription.Base64.{IsByte}

-- How many bytes follow the first one of a character, and the bounds of the next.
unfoldable pub lead : ℕ → Option (ℕ × ℕ × ℕ)
lead c =
    if ltb c 0x80
    then some (0, 0, 0)
    else if ltb c 0xC2
    then none
    else if ltb c 0xE0
    then some (1, 0x80, 0xBF)
    else if c == 0xE0
    then some (2, 0xA0, 0xBF)
    else if c == 0xED
    then some (2, 0x80, 0x9F)
    else if ltb c 0xF0
    then some (2, 0x80, 0xBF)
    else if c == 0xF0
    then some (3, 0x90, 0xBF)
    else if ltb c 0xF4
    then some (3, 0x80, 0xBF)
    else if c == 0xF4
    then some (3, 0x80, 0x8F)
    else none

abbrev resume : Option (ℕ × ℕ × ℕ) → (ℕ → ℕ → ℕ → Bool) → Bool
resume none loop = false
resume (some (more, lo, hi)) loop = loop more lo hi

-- `more` bytes of a character are still to come, the next one of them between the bounds.
unfoldable pub valid_from : ℕ → ℕ → ℕ → Bytes → Bool
unfolding lead
valid_from zero lo hi [] = true
valid_from (suc more) lo hi [] = false
valid_from zero lo hi (c ∷ s) = resume (lead c) (λ more lo' hi'. valid_from more lo' hi' s)
valid_from (suc more) lo hi (c ∷ s) =
    let rest = valid_from more 0x80 0xBF s in (leb lo c && leb c hi) && rest

-- utf8.Valid
unfoldable pub valid : Bytes → Bool
unfolding valid_from
valid s = valid_from 0 0 0 s

resume_map :
    (o : Option (ℕ × ℕ × ℕ)) (loop next : ℕ → ℕ → ℕ → Bool)
    → ((more lo hi : ℕ) → loop more lo hi ≡ true → next more lo hi ≡ true)
    → resume o loop ≡ true
    → resume o next ≡ true
resume_map none loop next f h = absurd (ground (arith, h))
resume_map (some (more, lo, hi)) loop next f h = f more lo hi h

and_mono : (a b b' : Bool) → (b ≡ true → b' ≡ true) → a && b ≡ true → a && b' ≡ true
and_mono true b b' f h = f h
and_mono false b b' f h = h

valid_from-append :
    (more lo hi : ℕ) (s t : Bytes)
    → valid_from more lo hi s ≡ true
    → valid_from 0 0 0 t ≡ true
    → valid_from more lo hi (s ++ t) ≡ true
unfolding valid_from
valid_from-append zero lo hi [] [] h k = refl
valid_from-append zero lo hi [] (c ∷ t) h k = k
valid_from-append (suc more) lo hi [] t h k = absurd (ground (arith, h))
valid_from-append (suc more) lo hi (c ∷ s) t h k =
    and_mono (leb lo c && leb c hi) _ _ (λ g. valid_from-append more 0x80 0xBF s t g k) h
valid_from-append zero lo hi (c ∷ s) t h k =
    resume_map (lead c) _ _ (λ more lo' hi' g. valid_from-append more lo' hi' s t g k) h

pub valid-append : (s t : Bytes) → valid s ≡ true → valid t ≡ true → valid (s ++ t) ≡ true
unfolding valid
valid-append s t h k = valid_from-append 0 0 0 s t h k

pub valid_ascii : (s : Bytes) → All (λ c. c < 128) s → valid s ≡ true
unfolding valid valid_from
valid_ascii [] h = refl
valid_ascii (c ∷ s) h = ground (arith, valid_ascii s h.1)

abbrev Leads : ℕ → Option (ℕ × ℕ × ℕ) → Type 0
Leads c none = Unit {0}
Leads c (some (more, lo, hi)) = (c < 256) × (hi < 256)

lead-Leads : (c : ℕ) → Leads c (lead c)
unfolding lead
lead-Leads c = ground arith

resume-IsByte :
    (c : ℕ) (s : Bytes) (o : Option (ℕ × ℕ × ℕ)) (loop : ℕ → ℕ → ℕ → Bool)
    → Leads c o
    → ((more lo hi : ℕ) → hi < 256 → loop more lo hi ≡ true → All IsByte s)
    → resume o loop ≡ true
    → IsByte c × All IsByte s
resume-IsByte c s none loop l f h = absurd (ground (arith, h))
resume-IsByte c s (some (more, lo, hi)) loop l f h = (l.0, f more lo hi l.1 h)

valid_from-IsByte :
    (more lo hi : ℕ) (s : Bytes) → hi < 256 → valid_from more lo hi s ≡ true → All IsByte s
unfolding valid_from
valid_from-IsByte zero lo hi [] b h = tt
valid_from-IsByte (suc more) lo hi [] b h = tt
valid_from-IsByte (suc more) lo hi (c ∷ s) b h = ground (arith, valid_from-IsByte more 0x80 0xBF s)
valid_from-IsByte zero lo hi (c ∷ s) b h =
    resume-IsByte c s (lead c) _ (lead-Leads c)
      (λ more lo' hi' b' g. valid_from-IsByte more lo' hi' s b' g) h

pub valid-IsByte : (s : Bytes) → valid s ≡ true → All IsByte s
unfolding valid
valid-IsByte s h = valid_from-IsByte 0 0 0 s (omega arith) h

-- ===== src/Prelude/Members.antt =====
-- `Vec::contains` and `HashSet` on texts: whether a text is among others, and what is left without
-- duplicates.
use mathlib.Core.Path.{◌≡◌, refl, sym}
use mathlib.Core.Logic.{◌↔◌, inl, inr}
use mathlib.Core.Logic.Or
use mathlib.Core.Bool.{Bool, true, false, ◌||◌, Bool-set}
use mathlib.Core.List.{
  List, [], ◌∷◌, ◌++◌, Mem, Nodup, Nodup-nil, not-mem-nil, mem-cons, Nodup-cons,
  perm_append_singleton,
}
use mathlib.Core.List.Perm
use native.Mathlib.Omega.{arith}
use Prim.Native.Nat.{◌≤◌}
use key_mesh.Prelude.Tests.{if◌then◌else◌, Bool-cases}
use key_mesh.Prelude.Lists.{length, All}
use key_mesh.Prelude.Bytes.{bytes_eq, bytes_eq_iff}
use key_mesh.Prelude.Text.{Str}

unfoldable pub contains : Str → List Str → Bool
contains g [] = false
contains g (a ∷ others) = bytes_eq a g || contains g others

contains_of_Mem : (g : Str) (gs : List Str) → Mem g gs → contains g gs ≡ true
unfolding contains
contains_of_Mem g [] m = absurd (not-mem-nil m)
contains_of_Mem g (a ∷ gs) m =
    Or.elim (Bool-set _ _) (mem-cons.0 m) (λ e. ground (arith, (bytes_eq_iff a g).1 (sym e)))
      (λ m'. ground (arith, contains_of_Mem g gs m'))

Mem_of_contains : (g : Str) (gs : List Str) → contains g gs ≡ true → Mem g gs
unfolding contains
Mem_of_contains g [] h = cc
Mem_of_contains g (a ∷ gs) h = elim (Bool-cases (bytes_eq a g)) [
  | inl e ↦ mem-cons.1 (∣ inl (sym ((bytes_eq_iff a g).0 e)) ∣₁)
  | inr e ↦ mem-cons.1 (∣ inr (Mem_of_contains g gs (ground arith)) ∣₁)
]

-- What a further text changes.
pub contains-push :
    (h g : Str) (gs : List Str) → contains h (gs ++ (g ∷ [])) ≡ contains h gs || bytes_eq g h
unfolding contains
contains-push h g [] = ground arith
contains-push h g (a ∷ gs) = ground (arith, contains-push h g gs)

-- A text that is there already changes nothing.
pub contains-again :
    (h g : Str) (gs : List Str)
    → contains g gs ≡ true
    → contains h gs ≡ contains h gs || bytes_eq g h
contains-again h g gs m = elim (Bool-cases (bytes_eq g h)) [
  | inl e ↦ rw (rw ((bytes_eq_iff g h).0 e) at m) refl
  | inr e ↦ ground (arith, e)
]

-- A text that `contains` does not find can be added at the end.
pub Nodup-push :
    (g : Str) (gs : List Str) → contains g gs ≡ false → Nodup gs → Nodup (gs ++ (g ∷ []))
Nodup-push g gs fresh distinct =
    Perm.nodup (Perm.symm (perm_append_singleton g gs))
      (Nodup-cons.1 ((λ m. cc (contains_of_Mem g gs m)), distinct))

-- `iter().collect::<HashSet<_>>()`: each text once.
unfoldable pub hash_set : List Str → List Str
hash_set [] = []
hash_set (p ∷ ps) = let set = hash_set ps in if contains p ps then set else p ∷ set

hash_set-length : (ps : List Str) → length (hash_set ps) ≤ length ps
unfolding hash_set
hash_set-length [] = omega arith
hash_set-length (p ∷ ps) = ground (arith, hash_set-length ps)

-- A set has as many elements as the list exactly when the list has no duplicate.
pub hash_set_iff : (ps : List Str) → (length (hash_set ps) ≡ length ps) ↔ Nodup ps
unfolding hash_set
hash_set_iff [] = (λ _. Nodup-nil, λ _. refl)
hash_set_iff (p ∷ ps) = elim (Bool-cases (contains p ps)) [
  | inl h ↦ (
    λ e. absurd (ground (arith, hash_set-length ps)),
    λ d. absurd ((Nodup-cons.0 d).0 (Mem_of_contains p ps h)),
  )
  | inr h ↦ (
    λ e. Nodup-cons.1 ((λ m. cc (contains_of_Mem p ps m)), (hash_set_iff ps).0 (ground arith)),
    λ d. let same = (hash_set_iff ps).1 (Nodup-cons.0 d).1 in ground arith,
  )
]

-- What holds of every text among others.
pub All-of_contains {ℓ} :
    (P : Str → Type ℓ) (gs : List Str) → ((g : Str) → contains g gs ≡ true → P g) → All P gs
unfolding contains
All-of_contains P [] h = tt
All-of_contains P (g ∷ gs) h = (
  h g (ground (arith, (bytes_eq_iff g g).1 refl)),
  All-of_contains P gs (λ a m. h a (ground arith)),
)

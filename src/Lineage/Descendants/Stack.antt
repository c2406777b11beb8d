-- ===== src/Lineage/Descendants/Stack.antt =====
-- lineage.go: the stack of `descendants`.
use hubnot.Prelude.{◌≡◌, refl, true, false, ◌||◌, String, List, [], ◌∷◌, arith, eq_iff}
use hubnot.Prelude.Strings.{mem, distinct}
use hubnot.Lineage.Query.{push_stack}

pub mem-push_stack :
    (a : String) (xs stack : List String) → mem a (push_stack xs stack) ≡ mem a xs || mem a stack
unfolding push_stack mem
mem-push_stack a [] stack = refl
mem-push_stack a (x ∷ xs) stack = ground (arith, mem-push_stack a xs (x ∷ stack))

abbrev pub Apart : List String → List String → Type 0
Apart xs ys = (a : String) → mem a xs ≡ true → mem a ys ≡ false

pub distinct-push_stack :
    (xs stack : List String)
    → distinct xs ≡ true
    → distinct stack ≡ true
    → Apart xs stack
    → distinct (push_stack xs stack) ≡ true
unfolding push_stack distinct mem
distinct-push_stack [] stack d e n = e
distinct-push_stack (x ∷ xs) stack d e n =
    distinct-push_stack xs (x ∷ stack) (ground arith) (ground (arith, n x, eq_iff x x))
      (λ a m. ground (arith, n a, eq_iff x a))

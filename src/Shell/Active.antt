-- ===== src/Shell/Active.antt =====
-- At most one entry of the navigation of WorkspaceShell.tsx is marked as the current page.
use job_lens.Common.{
  ◌≡◌, refl, Bool, true, false, not, ◌&&◌, ◌||◌, Text, text_eq, List, [], ◌∷◌, starts_with, any,
  all, arith,
}

-- A test of a path: for this text, or for a beginning.
pub data Pattern : Type 0 where
  exact under : Text → Pattern

abbrev pub hits : Text → Pattern → Bool
hits path (exact p) = text_eq path p
hits path (under p) = starts_with p path

-- No path passes both tests.
abbrev pub apart : Pattern → Pattern → Bool
apart (exact p) (exact q) = not (text_eq p q)
apart (exact p) (under q) = not (starts_with q p)
apart (under p) (exact q) = not (starts_with p q)
apart (under p) (under q) = not (starts_with p q) && not (starts_with q p)

exact-exact : (p q t : Text) → text_eq t p ≡ true → text_eq t q ≡ true → text_eq p q ≡ true
unfolding text_eq
exact-exact [] [] [] h k = refl
exact-exact (c ∷ p) (d ∷ q) (e ∷ t) h k = ground (arith, exact-exact p q t)
exact-exact [] (d ∷ q) [] h k = k
exact-exact [] q (e ∷ t) h k = absurd (ground arith)
exact-exact (c ∷ p) q [] h k = absurd (ground arith)
exact-exact (c ∷ p) [] (e ∷ t) h k = absurd (ground arith)

exact-under : (p q t : Text) → text_eq t p ≡ true → starts_with q t ≡ true → starts_with q p ≡ true
unfolding text_eq starts_with
exact-under p [] t h k = refl
exact-under (c ∷ p) (d ∷ q) (e ∷ t) h k = ground (arith, exact-under p q t)
exact-under [] (d ∷ q) (e ∷ t) h k = absurd (ground arith)
exact-under p (d ∷ q) [] h k = absurd (ground arith)

under-under :
    (p q t : Text)
    → starts_with p t ≡ true
    → starts_with q t ≡ true
    → (starts_with p q || starts_with q p) ≡ true
unfolding starts_with
under-under [] q t h k = refl
under-under (c ∷ p) [] t h k = refl
under-under (c ∷ p) (d ∷ q) (e ∷ t) h k = ground (arith, under-under p q t)
under-under (c ∷ p) (d ∷ q) [] h k = absurd (ground arith)

apart-hits : (a b : Pattern) (t : Text) → apart a b ≡ true → hits t a ≡ true → hits t b ≡ false
apart-hits (exact p) (exact q) t h k = ground (arith, exact-exact p q t)
apart-hits (exact p) (under q) t h k = ground (arith, exact-under p q t)
apart-hits (under p) (exact q) t h k = ground (arith, exact-under q p t)
apart-hits (under p) (under q) t h k = ground (arith, under-under p q t)

one-hits :
    (a : Pattern) (bs : List Pattern) (t : Text)
    → all (apart a) bs ≡ true
    → hits t a ≡ true
    → any (hits t) bs ≡ false
one-hits a [] t h k = refl
one-hits a (b ∷ bs) t h k = ground (arith, apart-hits a b t, one-hits a bs t)

-- Where every test of one list is apart from every one of another, a path passes in one at most.
pub apart-any :
    (ps qs : List Pattern) (t : Text)
    → all (λ a. all (apart a) qs) ps ≡ true
    → any (hits t) ps ≡ true
    → any (hits t) qs ≡ false
apart-any [] qs t h k = absurd (ground arith)
apart-any (a ∷ ps) qs t h k = ground (arith, one-hits a qs t, apart-any ps qs t)

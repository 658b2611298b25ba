-- ===== src/Text/Laws.antt =====
-- The normal form of an address is a fixed point, and equality of texts is decided.
use outlook_dictionary.Common.{ℕ, ◌≡◌, refl, ap, true, false, [], ◌∷◌, arith}
use outlook_dictionary.Text.{
  Text, is_space, lower_char, lower, lstrip, rstrip_cons, rstrip, normalize, text_eq,
}

is_space-lower_char : (c : ℕ) → is_space (lower_char c) ≡ is_space c
unfolding is_space lower_char
is_space-lower_char c = ground arith

lower_char-lower_char : (c : ℕ) → lower_char (lower_char c) ≡ lower_char c
unfolding lower_char
lower_char-lower_char c = ground arith

lower-lower : (t : Text) → lower (lower t) ≡ lower t
lower-lower [] = refl
lower-lower (c ∷ cs) = cc (lower_char-lower_char c, lower-lower cs)

lstrip-lower : (t : Text) → lstrip (lower t) ≡ lower (lstrip t)
unfolding lstrip
lstrip-lower [] = refl
lstrip-lower (c ∷ cs) = ground (arith, is_space-lower_char c, lstrip-lower cs)

rstrip_cons-lower :
    (c : ℕ) (t : Text) → rstrip_cons (lower_char c) (lower t) ≡ lower (rstrip_cons c t)
rstrip_cons-lower c [] = ground (arith, is_space-lower_char c)
rstrip_cons-lower c (d ∷ ds) = refl

rstrip-lower : (t : Text) → rstrip (lower t) ≡ lower (rstrip t)
unfolding rstrip
rstrip-lower [] = refl
rstrip-lower (c ∷ cs) = rw (rstrip-lower cs) (rstrip_cons-lower c (rstrip cs))

rstrip_cons_fixed : (c : ℕ) (t : Text) → rstrip t ≡ t → rstrip (rstrip_cons c t) ≡ rstrip_cons c t
unfolding rstrip
rstrip_cons_fixed c [] h = ground arith
rstrip_cons_fixed c (d ∷ ds) h = rw h

rstrip-rstrip : (t : Text) → rstrip (rstrip t) ≡ rstrip t
unfolding rstrip
rstrip-rstrip [] = refl
rstrip-rstrip (c ∷ cs) = rstrip_cons_fixed c (rstrip cs) (rstrip-rstrip cs)

lstrip-rstrip_cons :
    (c : ℕ) (t : Text) → is_space c ≡ false → lstrip (rstrip_cons c t) ≡ rstrip_cons c t
unfolding lstrip
lstrip-rstrip_cons c [] h = ground arith
lstrip-rstrip_cons c (d ∷ ds) h = ground arith

lstrip-strip : (t : Text) → lstrip (rstrip (lstrip t)) ≡ rstrip (lstrip t)
unfolding lstrip rstrip
lstrip-strip [] = refl
lstrip-strip (c ∷ cs) = ground (arith, lstrip-strip cs, lstrip-rstrip_cons c (rstrip cs))

-- Normalising an address twice changes nothing more.
pub normalize-normalize : (t : Text) → normalize (normalize t) ≡ normalize t
unfolding normalize
normalize-normalize t =
    rw lstrip-lower
      (rw rstrip-lower (rw lower-lower (ap lower (rw lstrip-strip (rstrip-rstrip (lstrip t))))))

pub text_eq_refl : (t : Text) → text_eq t t ≡ true
unfolding text_eq
text_eq_refl [] = refl
text_eq_refl (c ∷ cs) = ground (arith, text_eq_refl cs)

pub text_eq→eq : (s t : Text) → text_eq s t ≡ true → s ≡ t
unfolding text_eq
text_eq→eq [] [] h = refl
text_eq→eq [] (d ∷ ds) h = cc
text_eq→eq (c ∷ cs) [] h = cc
text_eq→eq (c ∷ cs) (d ∷ ds) h = ground (arith, text_eq→eq cs ds)

-- ===== src/Store/Identity.antt =====
-- `identity` and `flatten` of internal/store/store.go.
use mqtt2prometheus.Base.{
  Text, ℕ, ◌≡◌, ◌≢◌, refl, sym, ◌∙◌, List, [], ◌∷◌, ◌++◌, length, length-map, append-nil,
  append_assoc, All, arith,
}
use mqtt2prometheus.Base.Dict.{Dict}
use mqtt2prometheus.Store.{flatten, write_labels, identity}

abbrev pub LacksZero : Text → Type 0
LacksZero s = All (λ (c : ℕ). c ≢ 0) s

-- A text without the byte 0 ends where the first 0 stands.
cut_at_zero :
    (a b s t : Text) → LacksZero a → LacksZero b → a ++ 0 ∷ s ≡ b ++ 0 ∷ t → (a ≡ b) × (s ≡ t)
cut_at_zero [] [] s t ha hb e = (refl, cc)
cut_at_zero [] (y ∷ b) s t ha hb e = ground arith
cut_at_zero (x ∷ a) [] s t ha hb e = ground arith
cut_at_zero (x ∷ a) (y ∷ b) s t ha hb e =
    let r = cut_at_zero a b s t ha.1 hb.1 (cc) in (cc (r.0), r.1)

not-append-zero : (a b s : Text) → LacksZero b → a ++ 0 ∷ s ≡ b → ⊥
not-append-zero [] [] s hb e = cc
not-append-zero [] (y ∷ b) s hb e = ground arith
not-append-zero (x ∷ a) [] s hb e = cc
not-append-zero (x ∷ a) (y ∷ b) s hb e = not-append-zero a b s hb.1 (cc)

write_labels_injective :
    (ns ms vs us : List Text) (a b : Text)
    → LacksZero a
    → LacksZero b
    → All LacksZero ns
    → All LacksZero ms
    → All LacksZero vs
    → All LacksZero us
    → length ns ≡ length vs
    → length ms ≡ length us
    → a ++ write_labels ns vs ≡ b ++ write_labels ms us
    → (a ≡ b) × (ns ≡ ms) × (vs ≡ us)
unfolding write_labels
write_labels_injective [] [] [] [] a b ha hb hn hm hv hu ln lm e =
    (sym (append-nil a) ∙ e ∙ append-nil b, refl, refl)
write_labels_injective [] [] [] (u ∷ us) a b ha hb hn hm hv hu ln lm e = absurd (omega arith)
write_labels_injective [] [] (v ∷ vs) us a b ha hb hn hm hv hu ln lm e = absurd (omega arith)
write_labels_injective [] (m ∷ ms) vs [] a b ha hb hn hm hv hu ln lm e = absurd (omega arith)
write_labels_injective [] (m ∷ ms) vs (u ∷ us) a b ha hb hn hm hv hu ln lm e =
    absurd (not-append-zero b a _ ha (sym e ∙ append-nil a))
write_labels_injective (n ∷ ns) ms [] us a b ha hb hn hm hv hu ln lm e = absurd (omega arith)
write_labels_injective (n ∷ ns) [] (v ∷ vs) us a b ha hb hn hm hv hu ln lm e =
    absurd (not-append-zero a b _ hb (e ∙ append-nil b))
write_labels_injective (n ∷ ns) (m ∷ ms) (v ∷ vs) [] a b ha hb hn hm hv hu ln lm e =
    absurd (omega arith)
write_labels_injective (n ∷ ns) (m ∷ ms) (v ∷ vs) (u ∷ us) a b ha hb hn hm hv hu ln lm e =
    let first = cut_at_zero a b _ _ ha hb e in
    let second = cut_at_zero n m _ _ hn.0 hm.0 first.1 in
    let rest =
      write_labels_injective ns ms vs us v u hv.0 hu.0 hn.1 hm.1 hv.1 hu.1 (omega arith)
        (omega arith) second.1 in
    (first.0, cc (second.0, rest.1), cc (rest.0, rest.2))

-- Two series whose metric name, label names and label values hold no byte 0, with a value for each
-- label name, have one identity only if they agree in all three.
pub identity_injective :
    (name other : Text) (ns ms vs us : List Text)
    → LacksZero name
    → LacksZero other
    → All LacksZero ns
    → All LacksZero ms
    → All LacksZero vs
    → All LacksZero us
    → length ns ≡ length vs
    → length ms ≡ length us
    → identity name ns vs ≡ identity other ms us
    → (name ≡ other) × (ns ≡ ms) × (vs ≡ us)
unfolding identity
identity_injective name other ns ms vs us = write_labels_injective ns ms vs us name other

longer : (x s : Text) → x ++ 0 ∷ s ≡ x → ⊥
longer [] s e = cc
longer (c ∷ x) s e = longer x s (cc)

-- Without that condition it fails: for any metric name, label names a and b and texts x, y and z,
-- the values x NUL b NUL y, z and the values x, y NUL b NUL z differ and have one identity.
pub identity_collides :
    (name a b x y z : Text)
    → let vs : List Text = (x ++ (0 ∷ b ++ 0 ∷ y)) ∷ z ∷ [] in
      let us : List Text = x ∷ (y ++ (0 ∷ b ++ 0 ∷ z)) ∷ [] in
      (vs ≢ us) × (identity name (a ∷ b ∷ []) vs ≡ identity name (a ∷ b ∷ []) us)
unfolding identity
identity_collides name a b x y z = (λ e. longer x (b ++ 0 ∷ y) (cc), simp (append_assoc))

-- `flatten` gives a value for each name.
pub length-flatten : (labels : Dict Text) → length (flatten labels).0 ≡ length (flatten labels).1
unfolding flatten
length-flatten labels = sym (length-map _ _)

-- The metric name is what stands before the first 0 of an identity, whatever the labels hold.
pub name-identity :
    (name other : Text) (ns vs ms us : List Text)
    → LacksZero name
    → LacksZero other
    → identity name ns vs ≡ identity other ms us
    → name ≡ other
unfolding identity
name-identity a b [] vs [] us ha hb e = sym (append-nil a) ∙ e ∙ append-nil b
name-identity a b [] vs (m ∷ ms) [] ha hb e = sym (append-nil a) ∙ e ∙ append-nil b
name-identity a b [] vs (m ∷ ms) (u ∷ us) ha hb e =
    absurd (not-append-zero b a _ ha (sym e ∙ append-nil a))
name-identity a b (n ∷ ns) [] [] us ha hb e = sym (append-nil a) ∙ e ∙ append-nil b
name-identity a b (n ∷ ns) [] (m ∷ ms) [] ha hb e = sym (append-nil a) ∙ e ∙ append-nil b
name-identity a b (n ∷ ns) [] (m ∷ ms) (u ∷ us) ha hb e =
    absurd (not-append-zero b a _ ha (sym e ∙ append-nil a))
name-identity a b (n ∷ ns) (v ∷ vs) [] us ha hb e =
    absurd (not-append-zero a b _ hb (e ∙ append-nil b))
name-identity a b (n ∷ ns) (v ∷ vs) (m ∷ ms) [] ha hb e =
    absurd (not-append-zero a b _ hb (e ∙ append-nil b))
name-identity a b (n ∷ ns) (v ∷ vs) (m ∷ ms) (u ∷ us) ha hb e = (cut_at_zero a b _ _ ha hb e).0

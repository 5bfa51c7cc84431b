-- ===== src/Rules/Payload.antt =====
-- internal/rules/payload.go, and the results that the methods of the package return.
use mqtt2prometheus.Base.{
  Text, ◌≡◌, refl, ◌⊎◌, inl, inr, ◌==◌, Option, none, some, List, [], ◌∷◌, if◌then◌else◌, arith,
}
use mqtt2prometheus.Platform.{
  Platform, Json, null, bool, number, string, array, object, Fields, end, field,
}

-- The errors, with the label that an error is wrapped with.
pub data Failure : Type 0 where
  not_numeric regex_no_match bad_json not_a_label : Failure
  label : Text → Failure → Failure

-- What `(value, present, err)` stands for; `panicked` is an index out of range.
pub data Outcome {ℓ} (A : Type ℓ) : Type ℓ where
  found : A → Outcome A
  absent : Outcome A
  failed : Failure → Outcome A
  panicked : Outcome A

infixl 5 ◌>>=◌
abbrev pub ◌>>=◌ {ℓ κ} : {A : Type ℓ} {B : Type κ} → Outcome A → (A → Outcome B) → Outcome B
found a >>= f = f a
absent >>= f = absent
failed e >>= f = failed e
panicked >>= f = panicked

pub >>=-eq-found {ℓ κ} :
    {A : Type ℓ} {B : Type κ} (m : Outcome A) (f : A → Outcome B) {b : B}
    → (m >>= f) ≡ found b
    → (a : A) × (m ≡ found a) × (f a ≡ found b)
>>=-eq-found (found a) f h = (a, refl, h)
>>=-eq-found absent f h = cc
>>=-eq-found (failed e) f h = cc
>>=-eq-found panicked f h = cc

pub found-injective {ℓ} : {A : Type ℓ} {a b : A} → found a ≡ found b → a ≡ b
found-injective h = cc

abbrev pub or_absent {ℓ} : {A : Type ℓ} → Option A → Outcome A
or_absent none = absent
or_absent (some a) = found a

-- an index into a slice
abbrev pub or_panic {ℓ} : {A : Type ℓ} → Option A → Outcome A
or_panic none = panicked
or_panic (some a) = found a

-- `object[segment]`
unfoldable pub get_field : {F : Type 0} → Text → Fields F → Option (Json F)
get_field k end = none
get_field k (field j v fs) = if k == j then some v else get_field k fs

-- the loop of `walk`, and its test for null
unfoldable pub walk_from : {F : Type 0} → List Text → Json F → Outcome (Json F)
unfolding get_field
walk_from [] null = absent
walk_from [] (bool b) = found (bool b)
walk_from [] (number x) = found (number x)
walk_from [] (string s) = found (string s)
walk_from [] (array xs) = found (array xs)
walk_from [] (object fs) = found (object fs)
walk_from (segment ∷ path) (object fs) = or_absent (get_field segment fs) >>= walk_from path
walk_from (segment ∷ path) _ = absent

-- `memo` holds what `parsed`, `document` and `err` say: nothing before the first parse, then the
-- decoded document or the error.
pub record Payload (F : Type 0) : Type 0 where
  pub raw : Text
  pub memo : Option (Option (Json F))

abbrev pub new_payload : {F : Type 0} → Text → Payload F
new_payload raw = record { raw = raw; memo = none }

module _ (P : Platform) where
  open P use {Float, unmarshal}

  decoded : Option (Json Float) → Outcome (Json Float)
  decoded none = failed bad_json
  decoded (some document) = found document

  -- the payload after the call, and the result
  unfoldable pub parse : Payload Float → Payload Float × Outcome (Json Float)
  unfolding decoded
  parse p = elim p.memo [
    | none ↦ let document = unmarshal p.raw in (record p { memo = some document }, decoded document)
    | some document ↦ (p, decoded document)
  ]

  unfoldable pub walk : Payload Float → List Text → Payload Float × Outcome (Json Float)
  unfolding parse walk_from
  walk p path = let (p', document) = parse p in (p', document >>= walk_from path)

  -- A payload that a message was made into, with or without a parse since.
  abbrev pub IsPayload : Payload Float → Type 0
  IsPayload p = (p.memo ≡ none) ⊎ (p.memo ≡ some (unmarshal p.raw))

  -- The memo changes no result: a walk over a payload, be it parsed before or not, gives what a walk
  -- over a new payload of the same bytes gives, and leaves such a payload.
  pub walk_lem :
      (p : Payload Float) (path : List Text)
      → IsPayload p
      → ((walk p path).1 ≡ (walk (new_payload p.raw) path).1)
        × ((walk p path).0.raw ≡ p.raw)
        × IsPayload (walk p path).0
  unfolding walk
  walk_lem p path (inl h) = ground arith
  walk_lem p path (inr h) = ground arith

  -- What a walk over the payload of a message gives. The readers below take the bytes of the message:
  -- by `walk_lem` the memo that they share makes no difference.
  unfoldable pub read : Text → List Text → Outcome (Json Float)
  unfolding walk
  read payload path = (walk (new_payload payload) path).1

-- no index was out of range on the way
abbrev pub IsSafe {ℓ} : {A : Type ℓ} → Outcome A → Type 0
IsSafe (found a) = Unit
IsSafe absent = Unit
IsSafe (failed e) = Unit
IsSafe panicked = ⊥

pub >>=-IsSafe {ℓ κ} :
    {A : Type ℓ} {B : Type κ} (o : Outcome A) (f : A → Outcome B)
    → IsSafe o
    → ((a : A) → IsSafe (f a))
    → IsSafe (o >>= f)
>>=-IsSafe (found a) f h k = k a
>>=-IsSafe absent f h k = tt
>>=-IsSafe (failed e) f h k = tt
>>=-IsSafe panicked f h k = h

pub or_absent-IsSafe {ℓ} : {A : Type ℓ} (o : Option A) → IsSafe (or_absent o)
or_absent-IsSafe none = tt
or_absent-IsSafe (some a) = tt

walk_from-IsSafe :
    {F : Type 0} (path : List Text) (document : Json F) → IsSafe (walk_from path document)
unfolding walk_from
walk_from-IsSafe [] null = tt
walk_from-IsSafe [] (bool b) = tt
walk_from-IsSafe [] (number x) = tt
walk_from-IsSafe [] (string s) = tt
walk_from-IsSafe [] (array xs) = tt
walk_from-IsSafe [] (object fs) = tt
walk_from-IsSafe (segment ∷ path) (object fs) =
    >>=-IsSafe (or_absent (get_field segment fs)) (walk_from path)
      (or_absent-IsSafe (get_field segment fs)) (walk_from-IsSafe path)
walk_from-IsSafe (segment ∷ path) null = tt
walk_from-IsSafe (segment ∷ path) (bool b) = tt
walk_from-IsSafe (segment ∷ path) (number x) = tt
walk_from-IsSafe (segment ∷ path) (string s) = tt
walk_from-IsSafe (segment ∷ path) (array xs) = tt

module _ (P : Platform) where
  open P use {Float}

  decoded-IsSafe : (o : Option (Json Float)) → IsSafe (decoded P o)
  unfolding decoded
  decoded-IsSafe none = tt
  decoded-IsSafe (some document) = tt

  pub read-IsSafe : (payload : Text) (path : List Text) → IsSafe (read P payload path)
  unfolding read
  read-IsSafe payload path =
      >>=-IsSafe (decoded P (P.unmarshal payload)) (walk_from path)
        (decoded-IsSafe (P.unmarshal payload)) (walk_from-IsSafe path)

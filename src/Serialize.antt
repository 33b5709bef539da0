-- ===== src/Serialize.antt =====
-- src/serialize.h: a value to the bytes of an archive and back. The binary archives of cereal are a
-- parameter.
use libasio.Prelude.{ℕ, ◌≡◌, refl, List, ◌++◌, Option, none, some, Result, ok, fault, bad_archive}

-- What the library relies on of cereal for a type: an output archive puts the bytes of a value in a
-- stream, and an input archive reads it back and leaves what follows it. What an input archive
-- cannot read makes it throw.
pub record Archive {ℓ} (T : Type ℓ) : Type ℓ where
  pub output : T → List ℕ
  pub input : List ℕ → Option (T × List ℕ)
  pub input-output : (t : T) (rest : List ℕ) → input (output t ++ rest) ≡ some (t, rest)

-- `iarchive(d)`, then `d`; what is left of the stream is dropped.
pub read {ℓ} : {T : Type ℓ} → Option (T × List ℕ) → Result T
read none = fault bad_archive
read (some (t, rest)) = ok t

module _ {ℓ} {T : Type ℓ} (archive : Archive T) where
  unfoldable pub cereal_serialize : T → List ℕ
  cereal_serialize t = archive.output t

  unfoldable pub cereal_deserialize : List ℕ → Result T
  unfolding read
  cereal_deserialize s = read (archive.input s)

  -- A value is read back from its own bytes, whatever follows them.
  pub cereal_deserialize-cereal_serialize :
      (t : T) (rest : List ℕ) → cereal_deserialize (cereal_serialize t ++ rest) ≡ ok t
  unfolding cereal_serialize cereal_deserialize
  cereal_deserialize-cereal_serialize t rest = rw (archive.input-output t rest) refl

-- A `shared_ptr` to a value, null or not.
unfoldable pub cereal_deserialize_ptr {ℓ} :
    {P : Type ℓ} → Archive (Option P) → List ℕ → Result (Option P)
unfolding read
cereal_deserialize_ptr archive s = read (archive.input s)

pub cereal_deserialize_ptr-cereal_serialize {ℓ} :
    {P : Type ℓ} (archive : Archive (Option P)) (p : Option P) (rest : List ℕ)
    → cereal_deserialize_ptr archive (cereal_serialize archive p ++ rest) ≡ ok p
unfolding cereal_serialize cereal_deserialize_ptr
cereal_deserialize_ptr-cereal_serialize archive p rest = rw (archive.input-output p rest) refl

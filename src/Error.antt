-- ===== src/Error.antt =====
-- src/error.rs: the crate's error type, and the way of one of its errors through an `io::Error`.
-- The text that goes with an I/O error (`context`) is for a reader only and is left out.
use immure.Prelude.{ℕ, Text}
use immure.FilePath.{FilePath}
use immure.Digest.Types.{Algorithm, Digest}

-- The kinds of `io::ErrorKind` that the program tests for, and one for any other.
pub data ErrorKind : Type 0 where
  not_found already_exists permission_denied not_a_directory resource_busy : ErrorKind
  interrupted write_zero broken_pipe other : ErrorKind

mutual
  -- An `io::Error` of the system, with its message, or one that carries an error of the crate.
  pub data IoError : Type 0 where
    os : ErrorKind → Text → IoError
    wrapped : Error → IoError

  pub data Error : Type 0 where
    io : IoError → Error
    invalid_digest : Text → Error
    digest_too_short : Digest → ℕ → ℕ → Error
    algorithm_mismatch : Digest → Algorithm → Error
    invalid_prefix : Text → Error
    prefix_too_short : Text → ℕ → ℕ → Error
    invalid_depth : ℕ → Algorithm → ℕ → Error
    quarantine_names_taken : FilePath → Error
    compression_unavailable : Error
    unknown_algorithm : Text → Error
    encryption_unavailable : Error
    key_length : ℕ → ℕ → Error
    random : Error
    key_required : FilePath → Error
    unsealable : Error
    damaged : Error
    frame_version : ℕ → Error
    too_many_chunks : Error
    obstructed : FilePath → Error
    root_missing : FilePath → Error

-- `io::Error::other` gives the kind `Other` to what it wraps.
abbrev pub kind : IoError → ErrorKind
kind (os k m) = k
kind (wrapped e) = other

pub data Result {ℓ} (E : Type 0) (A : Type ℓ) : Type ℓ where
  ok : A → Result E A
  err : E → Result E A

infixl 5 ◌>>=◌ ◌>>◌
abbrev pub ◌>>=◌ {ℓ κ} :
    {E : Type 0} {A : Type ℓ} {B : Type κ} → Result E A → (A → Result E B) → Result E B
ok a >>= f = f a
err e >>= f = err e

abbrev pub ◌>>◌ {ℓ} : {E : Type 0} {B : Type ℓ} → Result E (Unit {0}) → Result E B → Result E B
m >> k = m >>= λ _. k

-- One of the crate's own errors keeps its shape on the way up through a reader or a writer.
unfoldable pub contextualise : IoError → Error
contextualise (wrapped e) = e
contextualise (os k m) = io (os k m)

-- `Error::from_io`, without the words that go with the error.
unfoldable pub from_io : IoError → Error
unfolding contextualise
from_io source = contextualise source

unfoldable pub ctx {ℓ} : {A : Type ℓ} → Result IoError A → Result Error A
unfolding contextualise
ctx (ok a) = ok a
ctx (err e) = err (contextualise e)

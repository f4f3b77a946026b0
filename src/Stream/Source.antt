-- ===== src/Stream/Source.antt =====
-- `std::io::Read` as the encryption loop uses it: a source may return fewer bytes than asked for,
-- or fail.
use timelocked.Common.{
  ℕ, suc, String, List, [], ◌∷◌, min, take, drop, ◌≡◌, ◌++◌, ◌≤◌, ◌<◌, arith, length, length-take,
  take-append-drop, drop_all,
}
use timelocked.Common.Bytes.{Bytes}
use timelocked.Base.{Result, ok, err, io}

-- What the system does at one call of `read`: it returns at most n + 1 bytes, or an error.
pub data Grant : Type 0 where
  upto : ℕ → Grant
  fail : String → Grant

-- The bytes that are left, and the grants of the calls to come; past the end of the list a call
-- fills its buffer as far as the bytes go.
pub record Source : Type 0 where
  pub bytes : Bytes
  pub grants : List Grant

abbrev read_with : ℕ → Bytes → List Grant → Result (Bytes × Source)
read_with n bytes [] = ok (take n bytes, record { bytes = drop n bytes; grants = [] })
read_with n bytes (upto k ∷ grants) =
    ok (take (min n (suc k)) bytes, record { bytes = drop (min n (suc k)) bytes; grants = grants })
read_with n bytes (fail e ∷ grants) = err (io e)

unfoldable pub read : ℕ → Source → Result (Bytes × Source)
read n source = read_with n source.bytes source.grants

-- What a call returned and what is left make up what was there, and the buffer bounds it.
pub read_split :
    (n : ℕ) (source : Source) (xs : Bytes) (rest : Source)
    → read n source ≡ ok (xs, rest)
    → (source.bytes ≡ xs ++ rest.bytes) × (length xs ≤ n)
unfolding read
read_split n source xs rest h = split source.bytes source.grants h
  where
    split :
        (bytes : Bytes) (grants : List Grant)
        → read_with n bytes grants ≡ ok (xs, rest)
        → (bytes ≡ xs ++ rest.bytes) × (length xs ≤ n)
    split bytes [] h = ground (arith, take-append-drop n bytes, length-take n bytes)
    split bytes (upto k ∷ grants) h =
        ground (arith, take-append-drop (min n (suc k)) bytes, length-take (min n (suc k)) bytes)
    split bytes (fail e ∷ grants) h = cc

-- A call with room in its buffer returns nothing only at the end.
pub read-empty :
    (n : ℕ) (source rest : Source)
    → 0 < n
    → read n source ≡ ok ([], rest)
    → (source.bytes ≡ []) × (rest.bytes ≡ [])
unfolding read
read-empty n source rest pos h = ends source.bytes source.grants h
  where
    ends :
        (bytes : Bytes) (grants : List Grant)
        → read_with n bytes grants ≡ ok ([], rest)
        → (bytes ≡ []) × (rest.bytes ≡ [])
    ends [] [] h = ground (arith, drop_all {A = ℕ} n [])
    ends [] (upto k ∷ grants) h = ground (arith, drop_all {A = ℕ} (min n (suc k)) [])
    ends (b ∷ bytes) [] h = ground (arith, length-take n (b ∷ bytes))
    ends (b ∷ bytes) (upto k ∷ grants) h = ground (arith, length-take (min n (suc k)) (b ∷ bytes))
    ends bytes (fail e ∷ grants) h = cc

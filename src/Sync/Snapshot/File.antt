-- ===== src/Sync/Snapshot/File.antt =====
-- The file of a snapshot in internal/sync/checkpoint/snapshot.go, whose bytes are numbers.
use remnix.Prelude.{
  ℕ, zero, suc, false, not, ◌&&◌, ◌||◌, List, [], ◌∷◌, ◌++◌, Option, none, some, if◌then◌else◌,
  arith, ◌≡◌, refl, length, length-append, ltb, eqb, ◌≤◌, ◌<◌, ◌%◌, drop,
}
use remnix.Prelude.Result.{Result, ok, err, failed}

-- "SScp" and the version of the file.
abbrev pub file_prefix : List ℕ
file_prefix = 83 ∷ 83 ∷ 99 ∷ 112 ∷ []

unfoldable pub encode_file : List ℕ → List ℕ → List ℕ
encode_file nonce ct = file_prefix ++ 1 ∷ (length nonce % 256) ∷ (nonce ++ ct)

unfoldable pub take : ℕ → List ℕ → List ℕ
take zero xs = []
take (suc n) [] = []
take (suc n) (x ∷ xs) = x ∷ take n xs

-- `decodeBinaryFile` on what follows the four bytes of the magic word.
unfoldable pub decode_binary_rest : List ℕ → Result (List ℕ × List ℕ)
unfolding take drop
decode_binary_rest [] = err (failed "truncated snapshot file")
decode_binary_rest (v ∷ []) = err (failed "truncated snapshot file")
decode_binary_rest (v ∷ n ∷ body) =
    if not (eqb v 1)
    then err (failed "unsupported snapshot file version")
    else if ltb n 1 || ltb (length body) n
    then err (failed "truncated snapshot file")
    else ok (take n body, drop n body)

-- The bytes after the magic word, for a file that starts with it.
unfoldable pub after_magic : List ℕ → Option (List ℕ)
after_magic (a ∷ b ∷ c ∷ d ∷ rest) =
    if eqb a 83 && eqb b 83 && eqb c 99 && eqb d 112 then some rest else none
after_magic short = none

-- `DecodeFile`; `decode_json` is `decodeJSONFile`.
unfoldable pub decode_file : (List ℕ → Result (List ℕ × List ℕ)) → List ℕ → Result (List ℕ × List ℕ)
unfolding after_magic decode_binary_rest
decode_file decode_json b = elim (after_magic b) [
  | some rest ↦ decode_binary_rest rest
  | none ↦ elim (decode_json b) [ ok r ↦ ok r | err e ↦ err (failed "not a remnix snapshot") ]
]

take-append : (xs ys : List ℕ) → take (length xs) (xs ++ ys) ≡ xs
unfolding take
take-append [] ys = refl
take-append (x ∷ xs) ys = cc (take-append xs ys)

drop-append : (xs ys : List ℕ) → drop (length xs) (xs ++ ys) ≡ ys
unfolding drop
drop-append [] ys = refl
drop-append (x ∷ xs) ys = drop-append xs ys

-- `DecodeFile` reads back the nonce and the ciphertext of a file that `EncodeFile` wrote, for a nonce
-- of 1 to 255 bytes.
pub decode_file-encode_file :
    (decode_json : List ℕ → Result (List ℕ × List ℕ)) (nonce ct : List ℕ)
    → 1 ≤ length nonce
    → length nonce < 256
    → decode_file decode_json (encode_file nonce ct) ≡ ok (nonce, ct)
unfolding decode_file encode_file
decode_file-encode_file decode_json nonce ct some_byte small =
    let n : length nonce % 256 ≡ length nonce = omega arith in
    let enough : (ltb (length nonce) 1 || ltb (length (nonce ++ ct)) (length nonce)) ≡ false =
      ground (arith, length-append nonce ct) in
    rw (n, enough, take-append nonce ct, drop-append nonce ct) refl

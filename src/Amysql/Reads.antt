-- ===== src/Amysql/Reads.antt =====
-- What the callback reads of a row that `query` has saved.
use libc_jss.Base.{
  length, drop, Bytes, cstr, IsText, cstr_text, lengths, ℕ, ◌+◌, ◌≤◌, ◌≡◌, refl, sym, ap, ap₂,
  subst₂, ◌∙◌, false, Option, none, some, [], ◌∷◌, ◌++◌, map, append_assoc, arith,
}
use libc_jss.Amysql.{Row, Amysql, save_fields, fetched, query_failed, query, amysql_strerror, ended}
use libc_jss.Amysql.Saved.{left_of, packed, offsets, save_fields-IsSaved}

-- The texts that the callback reads through `fieldv`.
abbrev pub read_field : Bytes → Option ℕ → Option Bytes
read_field buf none = none
read_field buf (some p) = some (cstr (drop p buf))

abbrev pub AreTexts : Row → Type 0
AreTexts [] = Unit
AreTexts (none ∷ row) = AreTexts row
AreTexts (some s ∷ row) = IsText s × AreTexts row

drop_prefix : (pre rest : Bytes) → drop (length pre) (pre ++ rest) ≡ rest
drop_prefix [] rest = refl
drop_prefix (c ∷ pre) rest = drop_prefix pre rest

read_packed :
    (row : Row) (pre : Bytes)
    → AreTexts row
    → map (read_field (pre ++ packed row)) (offsets (length pre) row) ≡ row
read_packed [] pre h = refl
read_packed (none ∷ row) pre h = ap (◌∷◌ none) (read_packed row pre h)
read_packed (some s ∷ row) pre h =
    ap₂ (λ (x : Option Bytes) (xs : Row). x ∷ xs) first
      (subst₂ (λ b n. map (read_field b) (offsets n row) ≡ row) whole len
        (read_packed row (pre ++ (s ++ 0 ∷ [])) h.1))
  where
    first : some (cstr (drop (length pre) (pre ++ (s ++ 0 ∷ packed row)))) ≡ some s
    first =
        ap (λ b. some (cstr b)) (drop_prefix pre (s ++ 0 ∷ packed row))
        ∙ ap some (cstr_text s (packed row) h.0)

    whole : (pre ++ (s ++ 0 ∷ [])) ++ packed row ≡ pre ++ (s ++ 0 ∷ packed row)
    whole =
        append_assoc pre (s ++ 0 ∷ []) (packed row)
        ∙ ap (λ b. pre ++ b) (append_assoc s (0 ∷ []) (packed row))

    len : length (pre ++ (s ++ 0 ∷ [])) ≡ length pre + length s + 1
    len = omega lengths

-- However long a row is, `query` saves 32 fields at most and writes below the last byte of its
-- buffer, which stays 0, and the count it gives is the number of pointers saved.
pub query_bounds :
    (row : Row) (t : Amysql)
    → let r = query (fetched row) t in
      (length r.fieldv ≤ 32) × (length r.fieldbuf ≤ 8191) × (r.fieldc ≡ length r.fieldv)
unfolding query
query_bounds row t =
    let saved = save_fields-IsSaved row [] [] (omega arith) (omega arith) in
    (saved.0, saved.1.0, refl)

-- A row of at most 32 fields that fits into the buffer is read back whole through the pointers,
-- `NULL` fields included.
pub query_reads :
    (row : Row) (t : Amysql)
    → AreTexts row
    → length row ≤ 32
    → left_of (save_fields row [] []) ≡ false
    → let r = query (fetched row) t in map (read_field r.fieldbuf) r.fieldv ≡ row
unfolding query
query_reads row t h k e =
    let saved =
      (save_fields-IsSaved row [] [] (omega arith) (omega arith)).1.1 e (omega (arith, k)) in
    subst₂ (λ b v. map (read_field b) v ≡ row) (sym saved.1) (sym saved.0) (read_packed row [] h)

-- A row that does not fill the buffer leaves the error number of an earlier query as it was: after
-- a query that failed, the successful one is still reported as an error, with an empty text.
pub query-amysql_strerror :
    (row : Row) (message : Bytes) (t : Amysql)
    → left_of (save_fields row [] []) ≡ false
    → amysql_strerror (query (fetched row) (query (query_failed message) t)) ≡ some (ended [])
unfolding query
query-amysql_strerror row message t e = rw e refl

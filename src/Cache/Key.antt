-- ===== src/Cache/Key.antt =====
-- internal/cache/cache.go: the bucket key. SHA-256 with its hexadecimal form is an argument.
use semblance.Prelude.{
  ◌↔◌, sym, ap₂, length-append, ℕ, ◌+◌, ◌*◌, ◌/◌, ◌%◌, ◌^◌, ◌<◌, ◌≡◌, refl, ap, ◌∙◌, List, [], ◌∷◌,
  ◌++◌, arith, length,
}
use semblance.Text.{Text}

-- `binary.BigEndian.PutUint64`.
unfoldable pub put_uint64 : ℕ → Text
put_uint64 n =
    (n / 2 ^ 56 % 256)
    ∷ (n / 2 ^ 48 % 256)
    ∷ (n / 2 ^ 40 % 256)
    ∷ (n / 2 ^ 32 % 256)
    ∷ (n / 2 ^ 24 % 256)
    ∷ (n / 2 ^ 16 % 256)
    ∷ (n / 2 ^ 8 % 256)
    ∷ (n % 256)
    ∷ []

-- What `BucketKey` writes to the hash: each part behind its length.
unfoldable pub encode_parts : List Text → Text
encode_parts [] = []
encode_parts (p ∷ parts) = put_uint64 (length p) ++ (p ++ encode_parts parts)

unfoldable pub bucket_key : (Text → Text) → List Text → Text
bucket_key digest parts = digest (encode_parts parts)

-- Big-endian value of eight bytes.
value_of : Text → ℕ
value_of [] = 0
value_of (b ∷ s) = b * 256 ^ length s + value_of s

value_of-put_uint64 : (n : ℕ) → n < 2 ^ 64 → value_of (put_uint64 n) ≡ n
unfolding value_of put_uint64
value_of-put_uint64 n h = omega arith

length-put_uint64 : (n : ℕ) → length (put_uint64 n) ≡ 8
unfolding put_uint64
length-put_uint64 n = refl

-- Two texts of one length in front of two others.
append_split : (p q s t : Text) → length p ≡ length q → p ++ s ≡ q ++ t → (p ≡ q) × (s ≡ t)
append_split [] [] s t len h = (refl, h)
append_split [] (y ∷ q) s t len h = absurd (omega arith)
append_split (x ∷ p) [] s t len h = absurd (omega arith)
append_split (x ∷ p) (y ∷ q) s t len h = ground (arith, append_split p q s t (omega arith))

-- Every part is shorter than 2 ^ 64 bytes, as every Go string is.
abbrev pub AreShort : List Text → Type 0
AreShort [] = Unit
AreShort (p ∷ parts) = (length p < 2 ^ 64) × AreShort parts

-- The encoding is unambiguous: lists of parts, each shorter than 2 ^ 64 bytes, that give the same bytes are the same list.
pub encode_parts-injective :
    (ps qs : List Text) → AreShort ps → AreShort qs → encode_parts ps ≡ encode_parts qs → ps ≡ qs
unfolding encode_parts
encode_parts-injective [] [] hp hq h = refl
encode_parts-injective [] (q ∷ qs) hp hq h = absurd (
    omega (
      arith,
      ap length h,
      length-append (put_uint64 (length q)) (q ++ encode_parts qs),
      length-put_uint64 (length q),
    ))
encode_parts-injective (p ∷ ps) [] hp hq h = absurd (
    omega (
      arith,
      ap length h,
      length-append (put_uint64 (length p)) (p ++ encode_parts ps),
      length-put_uint64 (length p),
    ))
encode_parts-injective (p ∷ ps) (q ∷ qs) (sp, hp) (sq, hq) h =
    let (front, rest) =
      append_split (put_uint64 (length p)) (put_uint64 (length q)) _ _
        (length-put_uint64 (length p) ∙ sym (length-put_uint64 (length q))) h in
    let len : length p ≡ length q =
      sym (value_of-put_uint64 (length p) sp)
      ∙ ap value_of front
      ∙ value_of-put_uint64 (length q) sq in
    let (same, others) = append_split p q _ _ len rest in
    ap₂ (λ (x : Text) (xs : List Text). x ∷ xs) same (encode_parts-injective ps qs hp hq others)

-- If the parts are shorter than 2 ^ 64 bytes and the digest does not collide on the two encodings, the bucket keys of two lists of parts are
-- equal exactly when the lists are.
pub bucket_key-injective :
    (digest : Text → Text) (ps qs : List Text)
    → AreShort ps
    → AreShort qs
    → (digest (encode_parts ps) ≡ digest (encode_parts qs) → encode_parts ps ≡ encode_parts qs)
    → (bucket_key digest ps ≡ bucket_key digest qs) ↔ (ps ≡ qs)
unfolding bucket_key
bucket_key-injective digest ps qs hp hq free =
    (λ h. encode_parts-injective ps qs hp hq (free h), λ h. ap (bucket_key digest) h)

-- ===== src/Cache/Index.antt =====
-- The bucket maps of internal/cache/memory.go, read by bucket and entry ID.
use semblance.Assoc.{
  Eq, lookup, insert, delete, Distinct, lookup-insert_self, lookup-insert_ne, lookup-delete_self,
  lookup-delete_ne, insert-Distinct, delete-Distinct,
}
use semblance.Cache.Shard.{Entries, bucket_entries, add_entry, put_back, drop_entry}
use semblance.Prelude.{
  ℕ, ◌≡◌, ◌≢◌, ◌↔◌, ap, Bool, true, ◌&&◌, List, [], ◌∷◌, Option, none, some, arith, if◌then◌else◌,
  inl, inr, Option-cases,
}
use semblance.Text.{Text, text_eq, text_eq_iff, text_Eq}

-- A bucket and an entry ID.
abbrev pub EntryKey : Type 0
EntryKey = Text × Text

abbrev pub key_eq : EntryKey → EntryKey → Bool
key_eq (b, i) (b', i') = text_eq b b' && text_eq i i'

pub key_eq_iff : (k k' : EntryKey) → (key_eq k k' ≡ true) ↔ (k ≡ k')
key_eq_iff (b, i) (b', i') = (
  λ h. ground (arith, text_eq_iff b b', text_eq_iff i i'),
  λ h. ground (
    arith,
    text_eq_iff b b',
    text_eq_iff i i',
    ap (λ (k : EntryKey). k.0) h,
    ap (λ (k : EntryKey). k.1) h,
  ),
)

instance abbrev pub key_Eq : Eq EntryKey
key_Eq = record { beq = key_eq; beq_iff = key_eq_iff }

abbrev pub get_entry : EntryKey → List (Text × Entries) → Option ℕ
get_entry (b, i) m = lookup i (bucket_entries b m)

abbrev pub Buckets : Type 0
Buckets = List (Text × Entries)

bucket_entries-add :
    (b b' i : Text) (a : ℕ) (m : Buckets)
    → bucket_entries b (add_entry b' i a m)
      ≡ (if text_eq b b' then insert i a (bucket_entries b' m) else bucket_entries b m)
unfolding bucket_entries add_entry
bucket_entries-add b b' i a m =
    let es : Entries = insert i a (bucket_entries b' m) in
    ground (arith, text_eq_iff b b', lookup-insert_self b' es m, lookup-insert_ne b' b es m)

bucket_entries-put_back :
    (b b' : Text) (es : Entries) (m : Buckets)
    → bucket_entries b (put_back b' es m) ≡ (if text_eq b b' then es else bucket_entries b m)
unfolding bucket_entries put_back
bucket_entries-put_back b b' [] m =
    ground (arith, text_eq_iff b b', lookup-delete_self b' m, lookup-delete_ne b' b m)
bucket_entries-put_back b b' (x ∷ xs) m =
    ground
      (arith, text_eq_iff b b', lookup-insert_self b' (x ∷ xs) m, lookup-insert_ne b' b (x ∷ xs) m)

bucket_entries-drop :
    (b b' i : Text) (m : Buckets)
    → bucket_entries b (drop_entry b' i m)
      ≡ (if text_eq b b' then delete i (bucket_entries b' m) else bucket_entries b m)
unfolding bucket_entries drop_entry
bucket_entries-drop b b' i m = elim (Option-cases (lookup b' m)) [
  | inl missing ↦ rw (missing, drop_entry) (ground (arith, text_eq_iff b b'))
  | inr (es, found) ↦
      rw (found, drop_entry) (ground (arith, bucket_entries-put_back b b' (delete i es) m))
]

pub get_entry-add :
    (k j : EntryKey) (a : ℕ) (m : Buckets)
    → get_entry k (add_entry j.0 j.1 a m) ≡ (if key_eq k j then some a else get_entry k m)
get_entry-add (b, i) (b', i') a m =
    let es : Entries = bucket_entries b' m in
    rw (bucket_entries-add b b' i' a m) (
      ground (
        arith,
        text_eq_iff b b',
        text_eq_iff i i',
        lookup-insert_self i' a es,
        lookup-insert_ne i' i a es,
      ))

pub get_entry-drop :
    (k j : EntryKey) (m : Buckets)
    → get_entry k (drop_entry j.0 j.1 m) ≡ (if key_eq k j then none else get_entry k m)
get_entry-drop (b, i) (b', i') m =
    let es : Entries = bucket_entries b' m in
    rw (bucket_entries-drop b b' i' m) (
      ground (
        arith,
        text_eq_iff b b',
        text_eq_iff i i',
        lookup-delete_self i' es,
        lookup-delete_ne i' i es,
      ))

-- In every bucket no entry ID stands twice, and no bucket's map is empty.
pub record IsTidy (m : Buckets) : Type 0 where
  pub distinct : (b : Text) → Distinct (bucket_entries b m)
  pub filled : (b : Text) → lookup b m ≢ some []

pub nil-IsTidy : IsTidy []
unfolding bucket_entries
nil-IsTidy = record { distinct = λ b. tt; filled = λ b h. cc }

insert-ne-nil : (i : Text) (a : ℕ) (es : Entries) → insert i a es ≢ []
insert-ne-nil i a [] h = cc
insert-ne-nil i a ((j, v) ∷ es) h = ground arith

add-filled :
    (b i : Text) (a : ℕ) (m : Buckets) (b' : Text)
    → lookup b' m ≢ some []
    → lookup b' (add_entry b i a m) ≢ some []
unfolding add_entry
add-filled b i a m b' old h =
    let es : Entries = insert i a (bucket_entries b m) in
    ground (
      arith,
      text_eq_iff b' b,
      lookup-insert_self b es m,
      lookup-insert_ne b b' es m,
      insert-ne-nil i a (bucket_entries b m),
    )

put_back-filled :
    (b : Text) (es : Entries) (m : Buckets) (b' : Text)
    → lookup b' m ≢ some []
    → lookup b' (put_back b es m) ≢ some []
unfolding put_back
put_back-filled b [] m b' old h =
    ground (arith, text_eq_iff b' b, lookup-delete_self b m, lookup-delete_ne b b' m)
put_back-filled b (x ∷ xs) m b' old h =
    ground
      (arith, text_eq_iff b' b, lookup-insert_self b (x ∷ xs) m, lookup-insert_ne b b' (x ∷ xs) m)

drop-filled :
    (b i : Text) (m : Buckets) (b' : Text)
    → lookup b' m ≢ some []
    → lookup b' (drop_entry b i m) ≢ some []
unfolding drop_entry
drop-filled b i m b' old = elim (Option-cases (lookup b m)) [
  | inl missing ↦ rw (missing, drop_entry) old
  | inr (es, found) ↦ rw (found, drop_entry) (put_back-filled b (delete i es) m b' old)
]

pub add-IsTidy : (b i : Text) (a : ℕ) (m : Buckets) → IsTidy m → IsTidy (add_entry b i a m)
add-IsTidy b i a m t = record {
  distinct = λ b'.
      rw (bucket_entries-add b' b i a m)
        (ground (arith, insert-Distinct i a (bucket_entries b m) (t.distinct b), t.distinct b'));
  filled = λ b'. add-filled b i a m b' (t.filled b');
}

pub drop-IsTidy : (b i : Text) (m : Buckets) → IsTidy m → IsTidy (drop_entry b i m)
drop-IsTidy b i m t = record {
  distinct = λ b'.
      rw (bucket_entries-drop b' b i m)
        (ground (arith, delete-Distinct i (bucket_entries b m) (t.distinct b), t.distinct b'));
  filled = λ b'. drop-filled b i m b' (t.filled b');
}

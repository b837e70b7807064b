-- ===== src/Cache/Entries.antt =====
-- The entries of the process's cache: how many there are, and that none is there twice.
use text.Mathlib.TextEquality.{eq_iff}
use notifications_template_p.Prelude.{
  ℕ, zero, suc, ◌≤◌, ◌≡◌, refl, ◌⊎◌, inl, inr, String, false, List, [], ◌∷◌, none, some, length,
  arith, Bool-cases,
}
use notifications_template_p.Python.Stream.{Bytes}
use notifications_template_p.Storage.{Cached}
use notifications_template_p.Cache.{
  is_entry, find_cached, drop_cached, take_cached, maxsize, remember,
}
use notifications_template_p.Cache.Laws.{length-remember}

-- No two entries are for the same file.
abbrev pub IsDistinct : List Cached → Type 0
IsDistinct [] = Unit
IsDistinct (c ∷ cs) = (find_cached c.bucket_name c.filename cs ≡ none) × IsDistinct cs

pub record IsValid (cs : List Cached) : Type 0 where
  pub bounded : length cs ≤ maxsize
  pub distinct : IsDistinct cs

find_cached-drop_cached-none :
    (b f b' f' : String) (cs : List Cached)
    → find_cached b' f' cs ≡ none
    → find_cached b' f' (drop_cached b f cs) ≡ none
unfolding find_cached drop_cached
find_cached-drop_cached-none b f b' f' [] h = refl
find_cached-drop_cached-none b f b' f' (c ∷ cs) h =
    ground (arith, find_cached-drop_cached-none b f b' f' cs)

find_cached-take_cached-none :
    (n : ℕ) (b f : String) (cs : List Cached)
    → find_cached b f cs ≡ none
    → find_cached b f (take_cached n cs) ≡ none
unfolding find_cached take_cached
find_cached-take_cached-none zero b f cs h = refl
find_cached-take_cached-none (suc n) b f [] h = refl
find_cached-take_cached-none (suc n) b f (c ∷ cs) h =
    ground (arith, find_cached-take_cached-none n b f cs)

-- An entry that is taken out of distinct entries is not there any more.
find_cached-drop_cached :
    (b f : String) (cs : List Cached) → IsDistinct cs → find_cached b f (drop_cached b f cs) ≡ none
unfolding find_cached drop_cached
find_cached-drop_cached b f [] h = refl
find_cached-drop_cached b f (c ∷ cs) (h, k) =
    ground (arith, eq_iff b c.bucket_name, eq_iff f c.filename, find_cached-drop_cached b f cs k)

IsDistinct-drop_cached :
    (b f : String) (cs : List Cached) → IsDistinct cs → IsDistinct (drop_cached b f cs)
unfolding drop_cached
IsDistinct-drop_cached b f [] h = h
IsDistinct-drop_cached b f (c ∷ cs) (h, k) = elim (Bool-cases (is_entry b f c)) [
  | inl hit ↦ rw hit k
  | inr miss ↦ rw miss (
    find_cached-drop_cached-none b f c.bucket_name c.filename cs h,
    IsDistinct-drop_cached b f cs k,
  )
]

IsDistinct-take_cached : (n : ℕ) (cs : List Cached) → IsDistinct cs → IsDistinct (take_cached n cs)
unfolding take_cached
IsDistinct-take_cached zero cs h = tt
IsDistinct-take_cached (suc n) [] h = tt
IsDistinct-take_cached (suc n) (c ∷ cs) (h, k) =
    (find_cached-take_cached-none n c.bucket_name c.filename cs h, IsDistinct-take_cached n cs k)

-- Remembering a file, new or not, keeps the cache valid.
pub remember-IsValid : (c : Cached) (cs : List Cached) → IsValid cs → IsValid (remember c cs)
unfolding remember
remember-IsValid c cs h = record {
  bounded = length-remember c cs;
  distinct = IsDistinct-take_cached maxsize (c ∷ drop_cached c.bucket_name c.filename cs) (
    find_cached-drop_cached c.bucket_name c.filename cs h.distinct,
    IsDistinct-drop_cached c.bucket_name c.filename cs h.distinct,
  );
}

find_cached-take_cached :
    (n : ℕ) (b f : String) (cs : List Cached) (e : Bytes)
    → find_cached b f (take_cached n cs) ≡ some e
    → find_cached b f cs ≡ some e
unfolding find_cached take_cached
find_cached-take_cached zero b f cs e h = ground arith
find_cached-take_cached (suc n) b f [] e h = h
find_cached-take_cached (suc n) b f (c ∷ cs) e h =
    ground (arith, find_cached-take_cached n b f cs e)

find_cached-drop_cached_other :
    (b f : String) (c : Cached) (cs : List Cached) (e : Bytes)
    → is_entry b f c ≡ false
    → find_cached b f (drop_cached c.bucket_name c.filename cs) ≡ some e
    → find_cached b f cs ≡ some e
unfolding find_cached drop_cached
find_cached-drop_cached_other b f c [] e other h = h
find_cached-drop_cached_other b f c (d ∷ cs) e other h = ground (
  arith,
  eq_iff b d.bucket_name,
  eq_iff f d.filename,
  eq_iff c.bucket_name d.bucket_name,
  eq_iff c.filename d.filename,
  eq_iff b c.bucket_name,
  eq_iff f c.filename,
  find_cached-drop_cached_other b f c cs e other,
)

-- What is found after a file was remembered is that file, or was there before.
pub find_cached-remember_cases :
    (b f : String) (c : Cached) (cs : List Cached) (e : Bytes)
    → find_cached b f (remember c cs) ≡ some e
    → ((b ≡ c.bucket_name) × (f ≡ c.filename) × (e ≡ c.encoded)) ⊎ (find_cached b f cs ≡ some e)
unfolding remember find_cached
find_cached-remember_cases b f c cs e h =
    let there =
      find_cached-take_cached maxsize b f (c ∷ drop_cached c.bucket_name c.filename cs) e h in
    elim (Bool-cases (is_entry b f c)) [
      | inl hit ↦ inl (ground (arith, eq_iff b c.bucket_name, eq_iff f c.filename))
      | inr miss ↦ inr (find_cached-drop_cached_other b f c cs e miss (ground arith))
    ]

-- ===== src/Storage/Tests/Memory.antt =====
-- A file system in memory with hard links, on which the local store of
-- src/mx_bank_monitor/ingestion/artifacts.py runs in the tests.
use mexican_banking_monitor.Base.{
  ℕ, suc, ◌+◌, ◌≤◌, ◌≡◌, ◌≢◌, refl, sym, ap, ◌∙◌, inl, inr, Bool, true, false, Option, none, some,
  is_some, List, [], ◌∷◌, Text, text_eq, text_eq→, text_eq_refl, length, arith, if◌then◌else◌, ◌==◌,
  ==_iff, Bool-cases,
}
use mexican_banking_monitor.Storage.FileSystem.{
  FileSystem, IsFileSystem, LinkOutcome, linked, file_exists, link_failed, ReadOutcome, bytes,
  missing,
}

-- Names with the numbers of their files, and what the files hold.
abbrev pub Names : Type 0
Names = List (Text × ℕ)

abbrev pub Disk : Type 0
Disk = Names × (ℕ → List ℕ)

unfoldable pub find : Text → Names → Option ℕ
find p [] = none
find p ((name, n) ∷ names) = if text_eq name p then some n else find p names

unfoldable pub without : Text → Names → Names
without p [] = []
without p ((name, n) ∷ names) =
    let rest = without p names in if text_eq name p then rest else (name, n) ∷ rest

-- A number that is no less than any in use.
unfoldable pub top : Names → ℕ
top [] = 0
top ((name, n) ∷ names) = n + top names

unfoldable pub put : ℕ → List ℕ → (ℕ → List ℕ) → ℕ → List ℕ
put n c files m = if n == m then c else files m

abbrev pub held : (ℕ → List ℕ) → Option ℕ → Option (List ℕ)
held files none = none
held files (some n) = some (files n)

abbrev pub content_of : Disk → Text → Option (List ℕ)
content_of disk p = held disk.1 (find p disk.0)

find-le_top : (p : Text) (n : ℕ) (names : Names) → find p names ≡ some n → n ≤ top names
unfolding find top
find-le_top p n [] h = cc h
find-le_top p n ((name, m) ∷ names) h = elim (Bool-cases (text_eq name p)) [
  | inl e ↦
      let same : ◌≡◌ {A = Option ℕ} (some m) (some n) = rw e at h in
      let k : m ≡ n = cc same in omega (arith, k)
  | inr e ↦ omega (arith, find-le_top p n names (rw e at h))
]

find-head : (p : Text) (n : ℕ) (names : Names) → find p ((p, n) ∷ names) ≡ some n
unfolding find
find-head p n names = rw (text_eq_refl p)

find-other : (t p : Text) (n : ℕ) (names : Names) → t ≢ p → find p ((t, n) ∷ names) ≡ find p names
unfolding find
find-other t p n names ne = ground (arith, text_eq→ t p)

find-without : (t p : Text) (names : Names) → t ≢ p → find p (without t names) ≡ find p names
unfolding find without
find-without t p [] ne = refl
find-without t p ((name, n) ∷ names) ne = elim (Bool-cases (text_eq name t)) [
  | inl e ↦
      let same = text_eq→ name t e in
      rw e (find-without t p names ne ∙ sym (ground (arith, same, text_eq→ name p, ne)))
  | inr e ↦ rw e (ground (arith, find-without t p names ne))
]

held-put :
    (n : ℕ) (c : List ℕ) (files : ℕ → List ℕ) (o : Option ℕ)
    → some n ≢ o
    → held (put n c files) o ≡ held files o
unfolding put
held-put n c files none ne = refl
held-put n c files (some m) ne = elim (Bool-cases (n == m)) [
  | inl e ↦ absurd (ne (ap some ((==_iff n m).0 e)))
  | inr e ↦ rw e
]

abbrev pub temporary : Text → Text
temporary target = b'.' ∷ target

temporary_ne : (q : Text) → temporary q ≢ q
temporary_ne q same = omega (arith, ap length same)

abbrev make_temporary : Option ℕ → Text → Disk → Option Text × Disk
make_temporary (some n) target disk = (none, disk)
make_temporary none target disk = (
  some (temporary target),
  ((temporary target, suc (top disk.0)) ∷ disk.0, put (suc (top disk.0)) [] disk.1),
)

abbrev write : Option ℕ → List ℕ → Disk → Bool × Disk
write none c disk = (false, disk)
write (some n) c disk = (true, (disk.0, put n c disk.1))

-- Of the files of the new name and of the old one.
abbrev link : Option ℕ → Option ℕ → Text → Disk → LinkOutcome × Disk
link (some m) source target disk = (file_exists, disk)
link none none target disk = (link_failed, disk)
link none (some n) target disk = (linked, ((target, n) ∷ disk.0, disk.1))

abbrev read : Option (List ℕ) → ReadOutcome
read none = missing
read (some c) = bytes c

abbrev pub memory_files : FileSystem
memory_files = record {
  State = Disk;
  inode = λ disk p. find p disk.0;
  content = content_of;
  resolve = λ key. some key;
  make_directory = λ key disk. (true, disk);
  exists = λ p disk. is_some (find p disk.0);
  make_temporary = λ target disk. make_temporary (find (temporary target) disk.0) target disk;
  write = λ t c disk. write (find t disk.0) c disk;
  link = λ t q disk. link (find q disk.0) (find t disk.0) q disk;
  read = λ p disk. read (content_of disk p);
  unlink = λ t disk. (without t disk.0, disk.1);
}

-- A name that is found is not one that is not.
apart : (t p : Text) (n : ℕ) (names : Names) → find t names ≡ none → find p names ≡ some n → t ≢ p
apart t p n names a b same = cc (a, b, ap (λ x. find x names) same)

held-some :
    (files : ℕ → List ℕ) (o : Option ℕ) (b : List ℕ)
    → held files o ≡ some b
    → (n : ℕ) × (o ≡ some n)
held-some files none b h = cc h
held-some files (some n) b h = (n, refl)

-- A new name changes what no other name holds.
new_name :
    (t p : Text) (n : ℕ) (disk : Disk) (b : List ℕ)
    → find t disk.0 ≡ none
    → content_of disk p ≡ some b
    → content_of ((t, n) ∷ disk.0, disk.1) p ≡ some b
new_name t p n disk b free h =
    let (m, e) = held-some disk.1 (find p disk.0) b h in
    ap (held disk.1) (find-other t p n disk.0 (apart t p m disk.0 free e)) ∙ h

make_temporary-fresh :
    (o : Option ℕ) (q t : Text) (disk : Disk)
    → find (temporary q) disk.0 ≡ o
    → (make_temporary o q disk).0 ≡ some t
    → (content_of disk t ≡ none) × (t ≢ q)
make_temporary-fresh (some n) q t disk e h = cc h
make_temporary-fresh none q t disk e h =
    let same : temporary q ≡ t = cc h in
    (ap (held disk.1) (ap (λ x. find x disk.0) (sym same) ∙ e), λ k. temporary_ne q (same ∙ k))

make_temporary-alone :
    (o : Option ℕ) (q t p : Text) (disk : Disk)
    → (make_temporary o q disk).0 ≡ some t
    → t ≢ p
    → find t (make_temporary o q disk).1.0 ≢ find p (make_temporary o q disk).1.0
make_temporary-alone (some n) q t p disk h ne k = cc h
make_temporary-alone none q t p disk h ne k =
    let same : temporary q ≡ t = cc h in
    let n = suc (top disk.0) in
    let a = find-head (temporary q) n disk.0 in
    let b = find-other (temporary q) p n disk.0 (λ e. ne (sym same ∙ e)) in
    let c = ap (λ x. find x ((temporary q, n) ∷ disk.0)) same in
    omega (arith, find-le_top p n disk.0 (cc (a, b, c, k)))

make_temporary-keeps :
    (o : Option ℕ) (q p : Text) (disk : Disk) (b : List ℕ)
    → find (temporary q) disk.0 ≡ o
    → content_of disk p ≡ some b
    → content_of (make_temporary o q disk).1 p ≡ some b
make_temporary-keeps (some n) q p disk b e h = h
make_temporary-keeps none q p disk b e h =
    let (m, f) = held-some disk.1 (find p disk.0) b h in
    let n = suc (top disk.0) in
    let below = find-le_top p m disk.0 f in
    let other : find p ((temporary q, n) ∷ disk.0) ≡ find p disk.0 =
      find-other (temporary q) p n disk.0 (apart (temporary q) p m disk.0 e f) in
    ap (held (put n [] disk.1)) other
    ∙ held-put n [] disk.1 (find p disk.0)
        (λ k. let same : n ≡ m = cc (k, f) in omega (arith, below, same))
    ∙ h

write-keeps :
    (o : Option ℕ) (p : Text) (c : List ℕ) (disk : Disk)
    → o ≢ find p disk.0
    → content_of (write o c disk).1 p ≡ content_of disk p
write-keeps none p c disk ne = refl
write-keeps (some n) p c disk ne = held-put n c disk.1 (find p disk.0) ne

link-keeps :
    (o source : Option ℕ) (q p : Text) (disk : Disk) (b : List ℕ)
    → find q disk.0 ≡ o
    → content_of disk p ≡ some b
    → content_of (link o source q disk).1 p ≡ some b
link-keeps (some x) source q p disk b e h = h
link-keeps none none q p disk b e h = h
link-keeps none (some n) q p disk b e h = new_name q p n disk b e h

link-shares :
    (o source : Option ℕ) (t q : Text) (disk : Disk)
    → find q disk.0 ≡ o
    → find t disk.0 ≡ source
    → (link o source q disk).0 ≡ linked
    → find q (link o source q disk).1.0 ≡ find t (link o source q disk).1.0
link-shares (some x) source t q disk e f h = cc
link-shares none none t q disk e f h = cc
link-shares none (some n) t q disk e f h =
    find-head q n disk.0 ∙ sym (find-other q t n disk.0 (apart q t n disk.0 e f) ∙ f)

read-bytes : (o : Option (List ℕ)) (b : List ℕ) → read o ≡ bytes b → o ≡ some b
read-bytes none b h = cc h
read-bytes (some c) b h = cc h

read-missing : (o : Option (List ℕ)) → read o ≡ missing → o ≡ none
read-missing none h = refl
read-missing (some c) h = cc h

pub memory_files-IsFileSystem : IsFileSystem memory_files
memory_files-IsFileSystem = record {
  shared_content = λ p q s e. ap (held s.1) e;
  directory_keeps = λ k p s. refl;
  temporary_fresh = λ q t s h. make_temporary-fresh (find (temporary q) s.0) q t s refl h;
  temporary_alone = λ q t p s h ne. make_temporary-alone (find (temporary q) s.0) q t p s h ne;
  temporary_keeps = λ q p s b h. make_temporary-keeps (find (temporary q) s.0) q p s b refl h;
  write_keeps = λ t p c s ne. write-keeps (find t s.0) p c s ne;
  link_keeps = λ t q p s b h. link-keeps (find q s.0) (find t s.0) q p s b refl h;
  link_shares = λ t q s h. link-shares (find q s.0) (find t s.0) t q s refl refl h;
  unlink_keeps = λ t p s ne. ap (held s.1) (find-without t p s.0 ne);
  read_bytes = λ p s b h. read-bytes (content_of s p) b h;
  read_missing = λ p s h. read-missing (content_of s p) h;
}

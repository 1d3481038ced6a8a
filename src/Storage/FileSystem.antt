-- ===== src/Storage/FileSystem.antt =====
-- The file system below `LocalArtifactStore` (src/mx_bank_monitor/ingestion/artifacts.py): the calls
-- that the store makes, any of which may fail, and what they promise.
use mexican_banking_monitor.Base.{ℕ, ◌≡◌, ◌≢◌, Bool, Option, none, some, List, Text}

pub data LinkOutcome : Type 0 where
  linked : LinkOutcome
  file_exists : LinkOutcome
  link_failed : LinkOutcome

pub data ReadOutcome : Type 0 where
  bytes : List ℕ → ReadOutcome
  missing : ReadOutcome
  read_failed : ReadOutcome

-- `resolve key` is the resolved path of a key below the root, or none where it leaves the root.
-- `inode` is the file that a name stands for, and `content` what a name's file holds; no call of the
-- store sees them but through the others. A Boolean is whether the call succeeded.
pub record FileSystem : Type 1 where
  pub State : Type 0
  pub inode : State → Text → Option ℕ
  pub content : State → Text → Option (List ℕ)
  pub resolve : Text → Option Text
  pub make_directory : Text → State → Bool × State
  pub exists : Text → State → Bool
  pub make_temporary : Text → State → Option Text × State
  pub write : Text → List ℕ → State → Bool × State
  pub link : Text → Text → State → LinkOutcome × State
  pub read : Text → State → ReadOutcome
  pub unlink : Text → State → State

-- `mkdir`, `mkstemp`, `link` and `unlink` as documented. A temporary file is new: no other name stands
-- for it. A hard link is a second name of one file, so that a write through either name changes what
-- both hold; a write changes no other file, and unlinking a name no other name.
pub record IsFileSystem (fs : FileSystem) : Type 0 where
  pub shared_content :
      (p q : Text) (s : fs.State) → fs.inode s p ≡ fs.inode s q → fs.content s p ≡ fs.content s q
  pub directory_keeps :
      (k p : Text) (s : fs.State) → fs.content (fs.make_directory k s).1 p ≡ fs.content s p
  pub temporary_fresh :
      (q t : Text) (s : fs.State)
      → (fs.make_temporary q s).0 ≡ some t
      → (fs.content s t ≡ none) × (t ≢ q)
  pub temporary_alone :
      (q t p : Text) (s : fs.State)
      → (fs.make_temporary q s).0 ≡ some t
      → t ≢ p
      → fs.inode (fs.make_temporary q s).1 t ≢ fs.inode (fs.make_temporary q s).1 p
  pub temporary_keeps :
      (q p : Text) (s : fs.State) (b : List ℕ)
      → fs.content s p ≡ some b
      → fs.content (fs.make_temporary q s).1 p ≡ some b
  pub write_keeps :
      (t p : Text) (c : List ℕ) (s : fs.State)
      → fs.inode s t ≢ fs.inode s p
      → fs.content (fs.write t c s).1 p ≡ fs.content s p
  pub link_keeps :
      (t q p : Text) (s : fs.State) (b : List ℕ)
      → fs.content s p ≡ some b
      → fs.content (fs.link t q s).1 p ≡ some b
  pub link_shares :
      (t q : Text) (s : fs.State)
      → (fs.link t q s).0 ≡ linked
      → fs.inode (fs.link t q s).1 q ≡ fs.inode (fs.link t q s).1 t
  pub unlink_keeps :
      (t p : Text) (s : fs.State) → t ≢ p → fs.content (fs.unlink t s) p ≡ fs.content s p
  pub read_bytes :
      (p : Text) (s : fs.State) (b : List ℕ) → fs.read p s ≡ bytes b → fs.content s p ≡ some b
  pub read_missing : (p : Text) (s : fs.State) → fs.read p s ≡ missing → fs.content s p ≡ none

-- ===== src/AccessPoint/FileHdl.antt =====
-- src/access_point_ctl/wifi_manager/file_hdl.rs: a file that is opened once, written from its
-- beginning, and removed with the handler. The file system is an interface over its state `W`.
use webcam_direct_linux.Prelude.{
  Text, Bytes, ◌≡◌, arith, Option, none, some, ◌++◌, [], Bool, true, false, if◌then◌else◌, drop,
  length, ap, Exec, Result, Result-cases, inl, inr, ok, anyhow, lift, on, ◌>>=◌, ◌>>◌,
}

pub record FileHdlOps (S : Type 0) : Type 0 where
  pub open_file : Exec S (Unit {0})
  pub write_data : Bytes → Exec S (Unit {0})
  pub get_path : S → Text

pub record OpenOptions : Type 0 where
  pub write : Bool
  pub read : Bool
  pub create : Bool
  pub truncate : Bool

-- What `OpenOptions::new` does not set is false.
abbrev pub open_options : OpenOptions
open_options = record { write = true; read = true; create = true; truncate = false }

pub record Files (W File : Type 0) : Type 0 where
  pub open_with : OpenOptions → Text → Exec W File
  pub write_all : File → Bytes → Exec W (Unit {0})
  pub flush : File → Exec W (Unit {0})
  pub remove_file : Text → Exec W (Unit {0})

pub record FileHdl (W File : Type 0) : Type 0 where
  pub path : Text
  pub file : Option File
  pub world : W

unfoldable pub from_path : {W File : Type 0} → Text → W → FileHdl W File
from_path path w = record { path = path; file = none; world = w }

module _ {W File : Type 0} (fs : Files W File) where
  abbrev pub world {ℓ} : {A : Type ℓ} → Exec W A → Exec (FileHdl W File) A
  world = on (λ h. h.world) (λ w h. record h { world = w })

  unfoldable pub open_file : Exec (FileHdl W File) (Unit {0})
  open_file h = elim h.file [
    | some file ↦ (ok tt, h)
    | none ↦
        (do
          file ← world (fs.open_with open_options h.path)
          (λ g. (ok tt, record g { file = some file })))
          h
  ]

  unfoldable pub get_file : FileHdl W File → Result File
  get_file h = elim h.file [ some file ↦ ok file | none ↦ anyhow "File not created or opened" ]

  unfoldable pub write_data : Bytes → Exec (FileHdl W File) (Unit {0})
  write_data bytes h =
      (do file ← lift (get_file h); world (fs.write_all file bytes); world (fs.flush file)) h

  unfoldable pub get_path : FileHdl W File → Text
  get_path h = h.path

  -- A failure is only logged.
  unfoldable pub drop_file : FileHdl W File → FileHdl W File
  drop_file h = (world (fs.remove_file h.path) h).1

  abbrev pub file_hdl : FileHdlOps (FileHdl W File)
  file_hdl = record { open_file = open_file; write_data = write_data; get_path = get_path }

  -- Writing needs an open file.
  pub write_data-closed :
      (bytes : Bytes) (h : FileHdl W File)
      → h.file ≡ none
      → write_data bytes h ≡ (anyhow "File not created or opened", h)
  unfolding write_data get_file
  write_data-closed bytes h e = ground arith

  -- What the documentation of files promises, where `content` is what stands in a file: opening
  -- with `truncate` empties it, and without keeps it; the first writing to a file that was just
  -- opened replaces its beginning; flushing changes nothing of it.
  pub record IsFiles (content : W → Text → Bytes) : Type 0 where
    pub opens :
        (options : OpenOptions) (path : Text) (file : File) (w w' : W)
        → fs.open_with options path w ≡ (ok file, w')
        → content w' path ≡ (if options.truncate then [] else content w path)
    pub writes :
        (options : OpenOptions) (path : Text) (file : File) (bytes : Bytes) (w w1 w2 : W)
        → fs.open_with options path w ≡ (ok file, w1)
        → fs.write_all file bytes w1 ≡ (ok tt, w2)
        → content w2 path ≡ bytes ++ drop (length bytes) (content w1 path)
    pub flushes :
        (path : Text) (file : File) (w w' : W)
        → fs.flush file w ≡ (ok tt, w')
        → content w' path ≡ content w path

  -- What stands in the file after opening and writing succeeded is the new data, and then the rest
  -- of what stood there before. Files are as documented, and the file was not open.
  pub write_data-old :
      (content : W → Text → Bytes) (bytes : Bytes) (h h' : FileHdl W File)
      → IsFiles content
      → h.file ≡ none
      → (open_file >> write_data bytes) h ≡ (ok tt, h')
      → content h'.world h.path ≡ bytes ++ drop (length bytes) (content h.world h.path)
  unfolding open_file write_data get_file
  write_data-old content bytes h h' files closed run =
      elim (Result-cases (fs.open_with open_options h.path h.world).0) [
        | inl (file, o) ↦
            let w1 = (fs.open_with open_options h.path h.world).1 in
            let w2 = (fs.write_all file bytes w1).1 in
            let opened : fs.open_with open_options h.path h.world ≡ (ok file, w1) =
              ap (λ (r : Result File). (r, w1)) o in
            ground (
              arith,
              o,
              files.opens open_options h.path file h.world w1 opened,
              files.writes open_options h.path file bytes h.world w1 w2 opened,
              files.flushes h.path file w2 (fs.flush file w2).1,
            )
        | inr (inl (m, o)) ↦ absurd (ground (arith, o))
        | inr (inr o) ↦ absurd (ground (arith, o))
      ]

-- ===== src/Uploads/Names.antt =====
-- The name that is made of the one that a client sends.
use aimpremote_control.Prelude.{
  ◌≡◌, ◌≢◌, refl, arith, inl, inr, false, ◌||◌, [], ◌∷◌, ◌==◌, nat_eq, contains, is_empty,
  Bool-cases,
}
use aimpremote_control.Prelude.Text.{Bytes, bytes, bytes_eq, bytes_beq_iff}
use aimpremote_control.Uploads.{Paths, named, client_file_name, sanitize_file_name}

-- The name of a path without a slash is the path.
abbrev pub KeepsPlain : Paths → Type 0
KeepsPlain paths = (p : Bytes) → contains b'/' p ≡ false → paths.file_name p ≡ p

-- A name of a file in the folder itself: one that leads neither out of it nor below it.
pub record IsFileName (name : Bytes) : Type 0 where
  pub no_slash : contains b'/' name ≡ false
  pub no_nul : contains 0 name ≡ false
  pub not_empty : is_empty name ≡ false
  pub not_here : name ≢ bytes "."
  pub not_above : name ≢ bytes ".."

no_slash-sanitize : (bs : Bytes) → contains b'/' (sanitize_file_name bs) ≡ false
unfolding sanitize_file_name
no_slash-sanitize [] = refl
no_slash-sanitize (b ∷ bs) = ground (arith, no_slash-sanitize bs)

no_nul-sanitize : (bs : Bytes) → contains 0 (sanitize_file_name bs) ≡ false
unfolding sanitize_file_name
no_nul-sanitize [] = refl
no_nul-sanitize (b ∷ bs) = ground (arith, no_nul-sanitize bs)

track-IsFileName : IsFileName (bytes "track")
track-IsFileName = record {
  no_slash = refl;
  no_nul = refl;
  not_empty = refl;
  not_here = λ e. cc;
  not_above = λ e. cc;
}

named-IsFileName :
    (paths : Paths) (name : Bytes)
    → contains b'/' name ≡ false
    → contains 0 name ≡ false
    → IsFileName (named paths name)
named-IsFileName paths name slash nul =
    elim (Bool-cases (is_empty name || (name == bytes ".") || (name == bytes ".."))) [
      | inl odd ↦ rw odd track-IsFileName
      | inr plain ↦ rw plain (record {
        no_slash = slash;
        no_nul = nul;
        not_empty = ground arith;
        not_here = λ e. ground (arith, bytes_beq_iff name (bytes "."));
        not_above = λ e. ground (arith, bytes_beq_iff name (bytes ".."));
      })
    ]

-- Where the file name of a path without a slash is the path itself, the name that ClientFileName makes
-- of the one that the client sends has no slash and no NUL, and is neither empty nor `.` nor `..`.
pub client_file_name-IsFileName :
    (paths : Paths) → KeepsPlain paths → (name : Bytes) → IsFileName (client_file_name paths name)
unfolding client_file_name
client_file_name-IsFileName paths plain name =
    rw (plain (sanitize_file_name name) (no_slash-sanitize name)) (
      named-IsFileName paths (sanitize_file_name name) (no_slash-sanitize name)
        (no_nul-sanitize name))

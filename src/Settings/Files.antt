-- ===== src/Settings/Files.antt =====
-- Which file `readFromFile` of relayer/viper.go reads, and as what.
use bas_relay_hub.Prelude.{
  ◌≡◌, ◌≢◌, refl, ap, ◌∙◌, true, false, [], ◌∷◌, ◌++◌, Bytes, length, All, le→leb, arith, not-==,
}
use bas_relay_hub.Errors.{Error, ok, err, panic, slice_bounds}
use bas_relay_hub.Slices.{slice_from}
use bas_relay_hub.Node.{or_fatal}
use bas_relay_hub.Settings.{
  ViperOps, config_path_key, config_path_of, has_mark, ext, read_path, read_from_file,
}

-- no dot and no slash
abbrev pub IsPlain : Bytes → Type 0
IsPlain s = All (λ c. (c ≢ b'.') × (c ≢ b'/')) s

has_mark-plain : (s : Bytes) → IsPlain s → has_mark s ≡ false
has_mark-plain [] _ = refl
has_mark-plain (c ∷ s) ((dot, slash), plain) =
    rw (not-== c b'.' dot, not-== c b'/' slash) (has_mark-plain s plain)

ext-plain : (s : Bytes) → IsPlain s → ext s ≡ []
ext-plain [] _ = refl
ext-plain (c ∷ s) ((dot, slash), plain) = rw (has_mark-plain s plain, not-== c b'.' dot) refl

-- a dot makes the mark, wherever it stands
has_mark-dot : (front suffix : Bytes) → has_mark (front ++ b'.' ∷ suffix) ≡ true
has_mark-dot [] suffix = refl
has_mark-dot (c ∷ front) suffix = rw (has_mark-dot front suffix) (ground arith)

ext-dot : (front suffix : Bytes) → IsPlain suffix → ext (front ++ b'.' ∷ suffix) ≡ b'.' ∷ suffix
ext-dot [] suffix plain = rw (has_mark-plain suffix plain) refl
ext-dot (c ∷ front) suffix plain = rw (has_mark-dot front suffix) (ext-dot front suffix plain)

module _ {V : Type 0} (viper : ViperOps V) (v : V) where
  abbrev pub path : Bytes
  path = config_path_of (viper.get_string config_path_key v)

  -- Without the file the settings stay as they are. A file whose name ends in a dot and an extension is
  -- read as a file of that type, and the process ends where that fails; a file whose path has no dot and
  -- no slash has no type to cut off, and the process panics.
  pub file_branches :
      ((e : Error) → viper.stat path ≡ err e → read_from_file viper v ≡ ok v)
      × (viper.stat path ≡ ok tt
          → ((front suffix : Bytes)
              → IsPlain suffix
              → path ≡ front ++ b'.' ∷ suffix
              → read_from_file viper v
                ≡ or_fatal (
                    viper.read_in_config
                      (viper.set_config_file path (viper.set_config_type suffix v))))
            × (IsPlain path → read_from_file viper v ≡ panic slice_bounds))
  unfolding read_from_file read_path slice_from
  file_branches = (
    λ e missing. rw (read_from_file, missing) refl,
    λ found. (
      λ front suffix plain named.
          let extension : ext path ≡ b'.' ∷ suffix = ap ext named ∙ ext-dot front suffix plain in
          rw
            (
              read_from_file,
              found,
              read_path,
              extension,
              slice_from,
              le→leb 1 (length (b'.' ∷ suffix)) (omega arith),
            )
            refl,
      λ plain. rw (read_from_file, found, read_path, ext-plain path plain, slice_from) refl,
    ),
  )

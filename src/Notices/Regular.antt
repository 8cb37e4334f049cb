-- ===== src/Notices/Regular.antt =====
-- What the check of the notices looks for in a module (scripts/noticecheck/main.go).
use platform_orchestrator_ru.Base.{
  with_ok, fail_if-ok, or_fail-some, ok, some, none, String, List, ◌≡◌, Option, true, or_fail,
  eq_iff, map, ◌⊎◌, fail_if, not-not, Bool, All, all, not, subst, any, ◌∙◌, sym, ◌||◌, ◌&&◌, length,
  ap, ok-injective, false, refl, ◌∷◌, str_append, [],
}
use platform_orchestrator_ru.Notices.{
  NoticeWorld, regular, same, WalkEntry, ModuleOrigin, git_blob, go_command,
}
use platform_orchestrator_ru.Notices.Modules.{GraphModule, Declaration, declared_for}
use platform_orchestrator_ru.Notices.Check.{self, is_origin, is_license_name, wanted}
use platform_orchestrator_ru.Notices.Receipt.{at_key, receipt}

abbrev pub IsRegular : NoticeWorld → (path content : String) → Type 0
IsRegular w path content = (w.lstat path ≡ some true) × (w.read_file path ≡ some content)

-- No entry of the walk is a symbolic link or an error, and one is a regular file with a license's name.
abbrev pub IsFound : NoticeWorld → List (Option WalkEntry) → Type 0
IsFound w walk =
    (entries : List WalkEntry) × (walk ≡ map some entries)
    × (all (λ entry. not entry.is_symlink) entries ≡ true)
    × (any (λ entry. entry.is_regular && is_license_name (w.to_upper entry.name)) entries ≡ true)

pub two_true : (a b : Bool) → not a || not b ≡ false → (a ≡ true) × (b ≡ true)
two_true true true h = (refl, refl)
two_true true false h = cc
two_true false b h = cc

pub or_split : (a b c : Bool) → a || b || c ≡ true → a || (b || c) ≡ true
or_split true b c h = refl
or_split false b c h = h

module _ (w : NoticeWorld) (bundle root arch : String) where
  -- A module's receipt has seven fields, which name the module, its version, its origin and the declaration.
  abbrev pub HasReceipt : GraphModule → Declaration → (sum commit : String) → Type 0
  HasReceipt m declaration sum commit =
      (content : String) × (actual : List (String × String)) × IsRegular w
        (w.join_path (w.join_path bundle m.path) "LICENSE.provenance") content
      × (receipt (w.receipt_tokens content) ≡ ok actual)
      × (length actual ≡ 7)
      × All (λ field. at_key field.0 actual ≡ field.1)
          (wanted w bundle root arch m declaration sum commit)

  -- The license has the declared hashes and is that of the module's source, whose origin, as the go command
  -- gives it for the download of the module, was checked, and there is a receipt of it.
  abbrev pub IsDeclared : (sums : String) → GraphModule → Declaration → Type 0
  IsDeclared sums m declaration =
      (license metadata : String) × (origin : ModuleOrigin) × (commit : String) × IsRegular w
        (w.join_path (w.join_path bundle m.path) "LICENSE") license
      × (w.sha256_hex license ≡ declaration.sha256)
      × (git_blob w license ≡ declaration.blob)
      × IsRegular w (w.join_path m.dir "LICENSE") license
      × (go_command w root arch
            ("mod" ∷ "download" ∷ "-json" ∷ str_append m.path (str_append "@" m.version) ∷ [])
          ≡ ok metadata)
      × (w.decode_origin metadata ≡ some origin)
      × (origin.origin_hash ≡ some commit)
      × (is_origin w bundle root arch m sums origin commit ≡ true)
      × HasReceipt m declaration origin.sum commit

  -- A module of the release, but for the program's own, has its notice, and a license that is declared
  -- is the declared one.
  abbrev pub IsNoticed : (sums : String) → List (String × Declaration) → GraphModule → Type 0
  IsNoticed sums declared m =
      (m.path ≡ self)
      ⊎ (IsFound w (w.walk_dir (w.join_path bundle m.path))
          × ((declared_for m.path declared ≡ none)
              ⊎ ((declaration : Declaration) × (declared_for m.path declared ≡ some declaration)
                  × IsDeclared sums m declaration)))

  pub regular-IsRegular :
      (path content : String) → regular w path ≡ ok content → IsRegular w path content
  unfolding regular
  regular-IsRegular path content h =
      with_ok _ (or_fail (w.lstat path) "required regular notice missing") h λ r e h1.
        with_ok _ (fail_if (not r) "required regular notice missing") h1 λ u e1 h2. (
          or_fail-some _ _ e ∙ ap some (not-not _ (fail_if-ok _ _ e1)),
          or_fail-some (w.read_file path) "read notice" h2,
        )

  pub same-IsRegular :
      (first second content : String)
      → same w first second ≡ ok tt
      → regular w first ≡ ok content
      → IsRegular w second content
  unfolding same
  same-IsRegular first second content h known = with_ok _ (regular w first) h λ a e h1.
      with_ok _ (regular w second) h1 λ b e1 h2.
        let equal = (eq_iff a b).0 (not-not _ (fail_if-ok _ _ h2)) in
        subst (IsRegular w second) (sym equal ∙ ok-injective (sym e ∙ known))
          (regular-IsRegular second b e1)

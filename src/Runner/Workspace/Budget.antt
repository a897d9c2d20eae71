-- ===== src/Runner/Workspace/Budget.antt =====
-- internal/runner/workspace.go: ExtractWorkspace on any archive.
use poligon.Base.{
  All, Bool, List, Option, Text, [], arith, false, if_keeps, if◌then◌else◌, length, ltb, none, not,
  refl, some, true, ℕ, ◌&&◌, ◌++◌, ◌+◌, ◌-◌, ◌∷◌, ◌≡◌, ◌≤◌,
}
use poligon.Paths.{FilePath}
use poligon.Runner.Workspace.{
  Disk, Entry, Unpacked, copy_zip_file, extract_workspace, inside_dir, is_passed_over, made_too,
  max_workspace_bytes, max_workspace_files, nothing_yet, unpack, unpack_all, unpack_at,
  unpack_entry, workspace_target,
}
use poligon.Runner.Workspace.Confined.{Inside, inside_dir-Inside, is_clean}
use poligon.Watchdog.Budget.{budget}

-- Everything that is made lies inside, and the bytes written keep to the limit.
pub record IsConfined (dest : FilePath) (limit : ℕ) (u : Unpacked) : Type 0 where
  pub inside : All (λ t. Inside t dest) u.made
  pub bounded : u.bytes ≤ limit

-- An error may follow the byte that is one too many.
abbrev AfterStep : FilePath → Unpacked × Bool → Type 0
AfterStep dest (u, fine) =
    IsConfined dest (if fine then max_workspace_bytes else max_workspace_bytes + 1) u

All-append_one :
    (dest target : FilePath) (ts : List FilePath)
    → All (λ t. Inside t dest) ts
    → Inside target dest
    → All (λ t. Inside t dest) (ts ++ target ∷ [])
All-append_one dest target [] h i = (i, tt)
All-append_one dest target (t ∷ ts) (h, hs) i = (h, All-append_one dest target ts hs i)

copied_le :
    (disk : Disk) (e : Entry) (target : FilePath) (budget : ℕ)
    → (copy_zip_file disk e target budget).0
      ≤ (if (copy_zip_file disk e target budget).1 then budget else budget + 1)
unfolding copy_zip_file
copied_le disk e target budget = ground arith

module _ (disk : Disk) (dest target : FilePath) (i : Inside target dest) (u : Unpacked)
    (h : IsConfined dest max_workspace_bytes u) where
  kept : (fine : Bool) → AfterStep dest (u, fine)
  kept fine = record { inside = h.inside; bounded = ground (arith, h.bounded) }

  made_confined :
      (n : ℕ) (fine : Bool)
      → n ≤ (if fine then max_workspace_bytes - u.bytes else max_workspace_bytes - u.bytes + 1)
      → AfterStep dest (made_too target n u, fine)
  made_confined n fine b = record {
    inside = All-append_one dest target u.made h.inside i;
    bounded = ground (arith, h.bounded);
  }

  unpack_at-AfterStep : (e : Entry) → AfterStep dest (unpack_at disk e target u)
  unpack_at-AfterStep e =
      let copied = copy_zip_file disk e target (max_workspace_bytes - u.bytes) in
      let wrote : AfterStep dest
          (if disk.creates target && e.opens then made_too target copied.0 u else u, copied.1) =
        if_keeps (λ v. AfterStep dest (v, copied.1)) (disk.creates target && e.opens) _ _
          (made_confined copied.0 copied.1
            (copied_le disk e target (max_workspace_bytes - u.bytes)))
          (kept copied.1) in
      if_keeps (AfterStep dest) e.is_dir _ _
        (if_keeps (AfterStep dest) (disk.makes target) _ _ (made_confined 0 true (omega arith))
          (kept false))
        (if_keeps (AfterStep dest) (not e.is_regular) _ _ (kept false)
          (if_keeps (AfterStep dest) (not (disk.makes _)) _ _ (kept false) wrote))

module _ (disk : Disk) (dest : FilePath) (c : is_clean dest.parts ≡ true) where
  unpack_entry-AfterStep :
      (e : Entry) (u : Unpacked)
      → IsConfined dest max_workspace_bytes u
      → AfterStep dest (unpack_entry disk dest e u)
  unfolding unpack_entry
  unpack_entry-AfterStep e u h =
      if_keeps (AfterStep dest) (is_passed_over e) _ _ h (at_target (inside_dir dest e.name) refl)
    where
      at_target :
          (o : Option FilePath)
          → inside_dir dest e.name ≡ o
          → AfterStep dest (elim o [ none ↦ (u, false) | some t ↦ unpack_at disk e t u ])
      at_target none p = record { inside = h.inside; bounded = omega (arith, h.bounded) }
      at_target (some t) p =
          unpack_at-AfterStep disk dest t (inside_dir-Inside dest e.name c p) u h e

  unpack-AfterStep :
      (es : List Entry) (u : Unpacked)
      → IsConfined dest max_workspace_bytes u
      → AfterStep dest (unpack disk dest es u)
  unfolding unpack
  unpack-AfterStep [] u h = h
  unpack-AfterStep (e ∷ es) u h =
      go_on (unpack_entry disk dest e u) (unpack_entry-AfterStep e u h)
        (λ v k. unpack-AfterStep es v k)
    where
      go_on :
          (r : Unpacked × Bool)
          → AfterStep dest r
          → ((v : Unpacked)
              → IsConfined dest max_workspace_bytes v
              → AfterStep dest (unpack disk dest es v))
          → AfterStep dest (elim r.1 [ true ↦ unpack disk dest es r.0 | false ↦ (r.0, false) ])
      go_on (v, true) k next = next v k
      go_on (v, false) k next = k

  unpack_all-AfterStep : (es : List Entry) → AfterStep dest (unpack_all disk dest es)
  unfolding unpack_all
  unpack_all-AfterStep es =
      let refused : AfterStep dest (nothing_yet, false) = record {
        inside = tt;
        bounded = omega arith;
      } in
      if_keeps (AfterStep dest) (ltb max_workspace_files (length es)) _ _ refused (
        if_keeps (AfterStep dest) (not (disk.makes dest)) _ _ refused
          (unpack-AfterStep es nothing_yet (record { inside = tt; bounded = omega arith })))

loosened :
    (dest : FilePath) (r : Unpacked × Bool)
    → AfterStep dest r
    → IsConfined dest (max_workspace_bytes + 1) r.0
loosened dest (u, true) h = record { inside = h.inside; bounded = omega (arith, h.bounded) }
loosened dest (u, false) h = h

-- Whatever the archive holds, and whether it is accepted or not: what ExtractWorkspace makes lies in
-- the directory, and it writes at most one byte more than the 512 MiB of the cap. The directory is
-- a clean path.
pub extract_workspace-IsConfined :
    (disk : Disk) (zip : Text) (dest : FilePath) (flow_path : Text)
    → is_clean dest.parts ≡ true
    → IsConfined dest (max_workspace_bytes + 1) (extract_workspace disk zip dest flow_path).0
unfolding extract_workspace
extract_workspace-IsConfined disk zip dest flow_path c =
    elim (disk.archive zip)
      as (λ o. IsConfined dest (max_workspace_bytes + 1) (
        let r : Unpacked × Option FilePath = elim o [
          | none ↦ (nothing_yet, none)
          | some es ↦ (
            (unpack_all disk dest es).0,
            if (unpack_all disk dest es).1 then workspace_target disk dest flow_path else none,
          )
        ] in
        r.0)) [
          | none ↦ record { inside = tt; bounded = omega arith }
          | some es ↦ loosened dest (unpack_all disk dest es) (unpack_all-AfterStep disk dest c es)
        ]

-- ===== src/Open/Kinds.antt =====
-- Which reader a path is opened with.
use latent_dfir.Common.{
  ℕ, ◌≤◌, ◌<◌, ◌≡◌, refl, arith, Bool, true, false, inl, Option, none, some, List, Bytes, span,
  Outcome, ok, err, panic, stuck, starts_with, both_ways, Meets, Meets-map, >>=-Meets,
}
use latent_dfir.Source.{Source, SourceError, FilePath}
use latent_dfir.Source.Reads.{Serves}
use latent_dfir.Source.Raw.{Host, RawSource, raw_open, raw_source}
use latent_dfir.Source.Raw.Contents.{Holds, raw_open-Serves}
use latent_dfir.Ewf as Ewf
use latent_dfir.Ewf.{
  Libewf, EwfSource, ewf_open, ewf_source, measured, tried, initialized, globbed, has_nul,
}
use latent_dfir.Vdisk.Qcow2.{Qcow2Source, qcow2_open, qcow2_source}
use latent_dfir.Vdisk.Qcow2.Header as Qcow2
use latent_dfir.Vdisk.Vmdk.{VmdkSource, vmdk_open, vmdk_source}
use latent_dfir.Vdisk.Vmdk.Header as Vmdk
use latent_dfir.Vdisk.Vhdx.{VhdxSource, vhdx_open, vhdx_source}
use latent_dfir.Vdisk.Vhdx.Header as Vhdx
use latent_dfir.Open.{open_ewf, qcow2_magic, vmdk_magic, vhdx_magic, open_as, open_path}

-- What `ewf::open` made of a path.
abbrev pub IsEwf : Option Libewf → FilePath → Source → Type 0
IsEwf none path src = ⊥
IsEwf (some lib) path src =
    (e : EwfSource lib) × ((ewf_open lib path).1 ≡ ok e) × (src ≡ ewf_source lib e)

module _ (lib : Libewf) (path : FilePath) where
  abbrev Ends : List Ewf.Call × Outcome SourceError (EwfSource lib) → Type 0
  Ends r = Meets (λ e. Unit {0}) r.1

  measured-Ends : (handle : lib.Handle) (o : Option ℕ) → Ends (measured lib path handle o)
  unfolding measured
  measured-Ends handle none = tt
  measured-Ends handle (some size) = tt

  tried-Ends : (handle : lib.Handle) (b : Bool) → Ends (tried lib path handle b)
  unfolding tried
  tried-Ends handle true = measured-Ends handle (lib.get_media_size handle)
  tried-Ends handle false = tt

  initialized-Ends :
      (names : lib.Names) (o : Option lib.Handle) → Ends (initialized lib path names o)
  unfolding initialized
  initialized-Ends names none = tt
  initialized-Ends names (some handle) = tried-Ends handle (lib.handle_open handle names)

  globbed-Ends : (o : Option lib.Names) → Ends (globbed lib path o)
  unfolding globbed
  globbed-Ends none = tt
  globbed-Ends (some names) = initialized-Ends names lib.handle_initialize

  ewf_open-Ends : Ends (ewf_open lib path)
  unfolding ewf_open
  ewf_open-Ends =
      both_ways Ends (has_nul (lib.path_bytes path)) _ _ (λ e. tt)
        λ e. globbed-Ends (lib.glob (lib.path_bytes path))

Meets-self {ℓ} :
    {E : Type 0} {A : Type ℓ} (P : A → Type 0) (m : Outcome E A)
    → Meets (λ a. Unit {0}) m
    → ((a : A) → m ≡ ok a → P a)
    → Meets P m
Meets-self P (ok a) h k = k a refl
Meets-self P (err e) h k = tt
Meets-self P panic h k = h
Meets-self P stuck h k = h

open_ewf-Meets :
    (lib : Option Libewf) (path : FilePath) → Meets (IsEwf lib path) (open_ewf lib path)
unfolding open_ewf
open_ewf-Meets none path = tt
open_ewf-Meets (some lib) path =
    let P = λ (e : EwfSource lib). (ewf_open lib path).1 ≡ ok e in
    >>=-Meets P (IsEwf (some lib) path) ((ewf_open lib path).1) _
      (Meets-self P ((ewf_open lib path).1) (ewf_open-Ends lib path) (λ e h. h)) λ e h. (e, h, refl)

-- What a path is opened as, whose raw source over the bytes `f` begins with `front`.
pub data IsOpened (lib : Option Libewf) (path : FilePath) (f : ℕ → ℕ) (raw : Source) (front : Bytes)
    (src : Source) : Type 0 where
  ewf_image :
      starts_with front Ewf.magic ≡ true → IsEwf lib path src → IsOpened lib path f raw front src
  qcow2_image :
      starts_with front qcow2_magic ≡ true
      → (q : Qcow2Source) → Qcow2.IsHeader raw f q
      → src ≡ qcow2_source q
      → IsOpened lib path f raw front src
  vmdk_image :
      starts_with front vmdk_magic ≡ true
      → (v : VmdkSource) → Vmdk.IsHeader f raw.size raw v
      → src ≡ vmdk_source v
      → IsOpened lib path f raw front src
  vhdx_image :
      starts_with front vhdx_magic ≡ true
      → (v : VhdxSource) → Vhdx.IsPlausible raw v
      → src ≡ vhdx_source v
      → IsOpened lib path f raw front src
  raw_image :
      starts_with front Ewf.magic ≡ false
      → starts_with front qcow2_magic ≡ false
      → starts_with front vmdk_magic ≡ false
      → starts_with front vhdx_magic ≡ false
      → src ≡ raw
      → IsOpened lib path f raw front src

module _ (host : Host) (lib : Option Libewf) (path : FilePath) where
  open_as-Meets :
      (raw : Source) (f : ℕ → ℕ) (front : Bytes)
      → Serves raw f
      → Meets (IsOpened lib path f raw front) (open_as host lib path raw front)
  unfolding open_as
  open_as-Meets raw f front s =
      let P = IsOpened lib path f raw front in
      both_ways (Meets P) (starts_with front Ewf.magic) _ _
        (λ a.
          Meets-map (IsEwf lib path) P (open_ewf lib path) (λ src. ewf_image a)
            (open_ewf-Meets lib path))
        λ a.
          both_ways (Meets P) (starts_with front qcow2_magic) _ _
            (λ b.
              >>=-Meets (Qcow2.IsHeader raw f) P (qcow2_open raw) _ (Qcow2.qcow2_open-Meets raw f s)
                λ q h. qcow2_image b q h refl)
            λ b.
              both_ways (Meets P) (starts_with front vmdk_magic) _ _
                (λ c.
                  >>=-Meets (Vmdk.IsHeader f raw.size raw) P (vmdk_open raw) _
                    (Vmdk.vmdk_open-Meets raw f s) λ v h. vmdk_image c v h refl)
                λ c.
                  both_ways (Meets P) (starts_with front vhdx_magic) _ _
                    (λ d.
                      >>=-Meets (Vhdx.IsPlausible raw) P (vhdx_open raw) _
                        (Vhdx.vhdx_open-Meets raw f s) λ v h. vhdx_image d v h refl)
                    λ d. raw_image a b c d refl

-- Once the raw file is open, opening a path of a stable file of `n` bytes `f` ends without a panic:
-- with an error, or with the reader whose magic value stands in the first bytes that were read, at
-- most eight and not none if there are any, opened as its own theorem says; and with the raw file
-- if none of them does.
pub open_path-Meets :
    (host : Host) (lib : Option Libewf) (path : FilePath) (f : ℕ → ℕ) (n : ℕ) (r : RawSource)
    → Holds host path f n
    → raw_open host path ≡ ok r
    → (k : ℕ) × (k ≤ 8)
      × (0 < n → 0 < k)
      × Meets (IsOpened lib path f (raw_source host r) (span f 0 k)) (open_path host lib path)
unfolding open_path
open_path-Meets host lib path f n r holds opened =
    let (s, size) = raw_open-Serves host path holds r (inl opened) in
    let (k, e, le, pos) = s.front 0 8 (omega arith) in
    (
      k,
      omega (arith, le),
      λ p. pos (omega (arith, p, size)),
      rw (opened, e) (open_as-Meets host lib path (raw_source host r) f (span f 0 k) s),
    )

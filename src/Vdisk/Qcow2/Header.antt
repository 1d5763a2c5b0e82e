-- ===== src/Vdisk/Qcow2/Header.antt =====
-- Which QCOW2 headers are accepted.
use latent_dfir.Common.{
  ℕ, ◌/◌, ◌^◌, ◌≤◌, ◌≡◌, refl, sym, ap, ◌∙◌, arith, span, bytes_eq→eq, ==_iff, ◌&&◌, &&-true,
  leb→le, Meets, require-Meets, leb, ◌==◌, bytes_eq,
}
use latent_dfir.Source.{Source}
use latent_dfir.Source.Reads.{Serves}
use latent_dfir.Vdisk.Fields.{be_at, read-then, be_u32-then, be_u64-then}
use latent_dfir.Vdisk.Qcow2.{Qcow2Source, qcow2_open, magic}

-- The bytes `f` begin with the header of a version 3 image that stands alone (no backing file, no
-- encryption, no snapshots), and `q` is what the header says.
pub record IsHeader (inner : Source) (f : ℕ → ℕ) (q : Qcow2Source) : Type 0 where
  pub magical : span f 0 4 ≡ magic
  pub version : be_at f 4 4 ≡ 3
  pub no_backing : be_at f 8 8 ≡ 0
  pub no_encryption : be_at f 32 4 ≡ 0
  pub no_snapshots : be_at f 60 4 ≡ 0
  pub cluster_bits_low : 9 ≤ be_at f 20 4
  pub cluster_bits_high : be_at f 20 4 ≤ 21
  pub cluster_size : q.cluster_size ≡ 2 ^ be_at f 20 4
  pub l2_entries : q.l2_entries ≡ 2 ^ be_at f 20 4 / 8
  pub virtual_size : q.virtual_size ≡ be_at f 24 8
  pub l1_size : q.l1_size ≡ be_at f 36 4
  pub l1_offset : q.l1_offset ≡ be_at f 40 8
  pub inner_source : q.inner ≡ inner

-- Opening as QCOW2 any source that serves its bytes ends without a panic: with an error, or with
-- the image that the header describes, whose header has the magic value, version 3, cluster bits
-- from 9 to 21, and names no backing file, encryption or snapshots.
pub qcow2_open-Meets :
    (inner : Source) (f : ℕ → ℕ) → Serves inner f → Meets (IsHeader inner f) (qcow2_open inner)
unfolding qcow2_open
qcow2_open-Meets inner f s =
    let P = IsHeader inner f in
    read-then s P 0 4 _ λ head h. require-Meets P (bytes_eq head magic) _ _ λ m.
      be_u32-then s P 4 _ λ version v. require-Meets P (version == 3) _ _ λ v3.
        be_u64-then s P 8 _ λ backing b. require-Meets P (backing == 0) _ _ λ b0.
          be_u32-then s P 32 _ λ crypt c. require-Meets P (crypt == 0) _ _ λ c0.
            be_u32-then s P 60 _ λ snapshots n. require-Meets P (snapshots == 0) _ _ λ n0.
              be_u32-then s P 20 _ λ bits k. require-Meets P (leb 9 bits && leb bits 21) _ _ λ kr.
                be_u64-then s P 24 _ λ virtual_size vs. be_u32-then s P 36 _ λ l1_size ls.
                  be_u64-then s P 40 _ λ l1_offset lo.
                    let range = &&-true (leb 9 bits) (leb bits 21) kr in
                    record {
                      magical = sym h ∙ bytes_eq→eq head magic m;
                      version = sym v ∙ (==_iff version 3).0 v3;
                      no_backing = sym b ∙ (==_iff backing 0).0 b0;
                      no_encryption = sym c ∙ (==_iff crypt 0).0 c0;
                      no_snapshots = sym n ∙ (==_iff snapshots 0).0 n0;
                      cluster_bits_low = omega (arith, k, leb→le 9 bits range.0);
                      cluster_bits_high = omega (arith, k, leb→le bits 21 range.1);
                      cluster_size = ap (λ j. 2 ^ j) k;
                      l2_entries = ap (λ j. 2 ^ j / 8) k;
                      virtual_size = vs;
                      l1_size = ls;
                      l1_offset = lo;
                      inner_source = refl;
                    }

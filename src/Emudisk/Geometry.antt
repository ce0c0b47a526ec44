-- ===== src/Emudisk/Geometry.antt =====
-- nctuss_emudisk_getgeo of emulator_kernel/nctuss_emudisk_main.c: a made-up geometry.
use nctusde.Base.{ℕ, ◌+◌, ◌*◌, ◌/◌, ◌%◌, ◌^◌, ◌≤◌, ◌<◌, arith}
use nctusde.Emudisk.{Emudisk}

-- `struct hd_geometry`
pub record Geometry : Type 0 where
  pub cylinders : ℕ
  pub heads : ℕ
  pub sectors : ℕ
  pub start : ℕ

-- `cylinders` is an `unsigned short`.
unfoldable pub getgeo : Emudisk → Geometry
getgeo e = record { cylinders = e.size / 63 / 255 % 2 ^ 16; heads = 255; sectors = 63; start = 0 }

-- The sectors that the geometry covers are all on the disk, and less than a cylinder of them is
-- left out, if the disk has fewer than 65536 cylinders, as the one of 400 MB has.
getgeo-covers :
    (e : Emudisk)
    → e.size < 65536 * (255 * 63)
    → let g = getgeo e in
      (g.cylinders * (g.heads * g.sectors) ≤ e.size)
      × (e.size < (g.cylinders + 1) * (g.heads * g.sectors))
unfolding getgeo
getgeo-covers e few = (omega (arith, few), omega (arith, few))

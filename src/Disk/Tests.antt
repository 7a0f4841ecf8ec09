-- ===== src/Disk/Tests.antt =====
-- streamer.c on a disk whose byte at a position is the position's low byte.
use boi_os.Prelude.{ℕ, ◌+◌, ◌*◌, ◌%◌, ◌≡◌, refl, some, true, arith}
use boi_os.Prelude.Mem.{Mem}
use boi_os.Status.{ok}
use boi_os.Disk.{Controller, diskstreamer_read}
use boi_os.Disk.Stream.{Serves, Filled, diskstreamer_read-Filled}

abbrev image : ℕ → ℕ
image a = a % 256

abbrev start_of : ℕ → ℕ → ℕ → ℕ
start_of low mid high = (low + 256 * mid + 65536 * high) * 512

abbrev controller : Controller
controller c i =
    image (start_of c.lba_low c.lba_mid c.lba_high + 2 * i)
    + 256 * image (start_of c.lba_low c.lba_mid c.lba_high + 2 * i + 1)

controller-Serves : Serves controller image
controller-Serves = record { bytes = λ a. omega arith; words = λ low mid high i a b c d. refl }

diskstreamer_read-Filled_example :
    (m' : Mem) × (diskstreamer_read controller
        (λ a. 0)
        (λ a. 0)
        (record { position = 500; disk = true })
        4096
        600
        4
      ≡ some (ok 0, record { position = 1100; disk = true }, m'))
    × Filled image 500 (λ a. 0) 4096 600 m'
diskstreamer_read-Filled_example =
    diskstreamer_read-Filled 4 controller image (λ a. 0) (λ a. 0) 500 4096 600 controller-Serves
      (omega arith) (omega arith)

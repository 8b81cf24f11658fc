-- ===== src/Hash/Crc32/Tests.antt =====
-- The checksum at concrete inputs.
use aimpremote_control.Prelude.{◌≡◌, ◌<◌, ◌^◌, ◌++◌, arith}
use aimpremote_control.Prelude.Text.{Bytes, bytes, AreBytes}
use aimpremote_control.Hash.Crc32.{crc32_update}
use aimpremote_control.Hash.Crc32.Laws.{
  crc32_reference, crc32_update-eq-reference, crc32_update-append, crc32_update-lt,
}

abbrev sample : Bytes
sample = bytes "123456789"

sample-AreBytes : AreBytes sample
sample-AreBytes = ground arith

crc32_update-eq-reference_example : crc32_update 0 sample ≡ crc32_reference 0 sample
crc32_update-eq-reference_example = crc32_update-eq-reference 0 sample sample-AreBytes

crc32_update-append_run :
    crc32_update 0 (bytes "12345" ++ bytes "6789")
    ≡ crc32_update (crc32_update 0 (bytes "12345")) (bytes "6789")
crc32_update-append_run = crc32_update-append 0 (bytes "12345") (bytes "6789")

crc32_update-lt_run : crc32_update 0 sample < 2 ^ 32
crc32_update-lt_run = crc32_update-lt 0 sample sample-AreBytes (omega arith)

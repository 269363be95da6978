-- ===== src/Output/Tests.antt =====
-- A file with two bytes of data and two of code.
use kiv_pc_sw.Prelude.{◌≡◌, refl, true, [], ◌∷◌, ◌++◌, some}
use kiv_pc_sw.Segment.{contents}
use kiv_pc_sw.Output.{
  Device, output_binary, write_segments, fu_write_bytes, write_in_little_endian, last_byte,
}
use kiv_pc_sw.Output.Load.{load, terminator, output_binary-load}
use kiv_pc_sw.Samples.{full_segment, full_segment-IsBuffer}

abbrev disk : Device
disk = record { opens = true; accepts = λ file bs. true; short = λ file bs. file }

load_example :
    load (output_binary disk 0 full_segment full_segment).1
    ≡ some (contents full_segment, contents full_segment ++ terminator 0 full_segment)
unfolding output_binary write_segments fu_write_bytes write_in_little_endian last_byte
load_example = output_binary-load disk 0 full_segment full_segment full_segment-IsBuffer refl

-- The code ends in 2, so a zero byte follows it.
written :
    (output_binary disk 0 full_segment full_segment).1
    ≡ 75 ∷ 77 ∷ 88 ∷ 2 ∷ 0 ∷ 0 ∷ 0 ∷ 1 ∷ 2 ∷ 1 ∷ 2 ∷ 0 ∷ []
unfolding output_binary write_segments fu_write_bytes write_in_little_endian last_byte
written = refl

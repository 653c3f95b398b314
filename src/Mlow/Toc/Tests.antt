-- ===== src/Mlow/Toc/Tests.antt =====
-- First bytes of frames.
use meowcaller.Base.{◌≡◌, refl, true, false, arith}
use meowcaller.Mlow.Toc.{parse_smpl_toc, standard_opus_frame_ms}
use meowcaller.Mlow.Toc.Fields.{first_byte, fields, parse_smpl_toc-first_byte}

opus_packet : (parse_smpl_toc 0xd8).frame_ms ≡ 20
unfolding parse_smpl_toc standard_opus_frame_ms
opus_packet = refl

parse_smpl_toc-first_byte_example :
    parse_smpl_toc (first_byte false true false 2 false true false)
    ≡ fields false true false 2 false true false
parse_smpl_toc-first_byte_example =
    parse_smpl_toc-first_byte false true false 2 false true false (omega arith)

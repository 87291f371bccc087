-- ===== src/Argon2/Index/Tests.antt =====
-- The layout of a valid context, and the references of two positions in it.
use security_core.Common.{◌≡◌, refl, ◌⊎◌, ◌≤◌, ◌<◌, ◌+◌, true, false, arith}
use security_core.Argon2.Types.{Argon2Type}
use security_core.Argon2.Validate.Tests.{sample}
use security_core.Argon2.Index.{Instance, Position, make_instance, index_alpha}
use security_core.Argon2.Index.Layout.{IsLayout}
use security_core.Argon2.Index.Bounds.{IsPosition, index_alpha_other, index_alpha_same}

abbrev instance_8 : Instance
instance_8 = record {
  version = 0x13;
  passes = 2;
  memory_blocks = 64;
  segment_length = 8;
  lane_length = 32;
  lanes = 2;
  threads = 2;
  type = Argon2Type.argon2_id;
}

instance_8-IsLayout : IsLayout instance_8
instance_8-IsLayout = record {
  two_blocks = omega arith;
  four_segments = refl;
  all_lanes = refl;
  lanes_pos = omega arith;
  threads_range = (omega arith, omega arith);
  lane_fits = omega arith;
  memory_fits = omega arith;
}

make_instance_test : make_instance sample Argon2Type.argon2_id ≡ instance_8
unfolding make_instance
make_instance_test = refl

abbrev second_slice : Position
second_slice = record { pass = 0; lane = 1; slice = 1; index = 3 }

second_slice-IsPosition : IsPosition instance_8 second_slice false
second_slice-IsPosition = record {
  four_slices = omega arith;
  in_segment = omega arith;
  first_slice = λ _ e. absurd (omega arith);
}

index_alpha_other_example :
    let r = index_alpha instance_8 second_slice 0x1234_5678 false in
    (r < 32) × ((r < 8) ⊎ (16 ≤ r)) × ((1 ≤ 0) ⊎ (r < 8))
index_alpha_other_example =
    index_alpha_other instance_8 second_slice 0x1234_5678 instance_8-IsLayout
      second_slice-IsPosition

abbrev second_pass : Position
second_pass = record { pass = 1; lane = 0; slice = 0; index = 0 }

second_pass-IsPosition : IsPosition instance_8 second_pass true
second_pass-IsPosition = record {
  four_slices = omega arith;
  in_segment = omega arith;
  first_slice = λ e _. absurd (omega arith);
}

index_alpha_same_example :
    let r = index_alpha instance_8 second_pass 0xffff_ffff true in
    (r < 32) × ((r + 1 < 0) ⊎ (8 ≤ r)) × ((1 ≤ 0) ⊎ (r + 1 < 32)) × ((1 ≤ 1) ⊎ (r + 1 < 0))
index_alpha_same_example =
    index_alpha_same instance_8 second_pass 0xffff_ffff instance_8-IsLayout second_pass-IsPosition

-- ===== src/Ipam/Client/Config.antt =====
-- GetIPAMConfig and SetIPAMConfig of lib/ipam/ipam.go, and the limit that autoAssign makes of it.
-- Whether the program runs on Windows is an argument.
pub mod Valid
mod Tests
use zyzxlibcalico_go.Prelude.{
  ℕ, Bool, true, false, not, ◌&&◌, ◌||◌, Option, none, ltb, ◌==◌, if◌then◌else◌,
}
use zyzxlibcalico_go.Prelude.Integers.{ℤ, pos, is_positive, is_zero, less, same_int}
use zyzxlibcalico_go.Ipam.Datastore.{ipam_config, IpamConfig, valid_config, Reply}
use zyzxlibcalico_go.Ipam.Datastore.Programs.{
  Program, returning, asking, ◌>>=◌, get_request, apply_request,
}
use zyzxlibcalico_go.Ipam.ReaderWriter.{
  store_error, strict_affinity_required, invalid_config, Attempt, done, failed, is_does_not_exist,
}

abbrev pub default_config : IpamConfig
default_config = record {
  strict_affinity = false;
  auto_allocate_blocks = true;
  max_blocks_per_host = pos 0;
}

abbrev pub checked_config : Bool → IpamConfig → Program (Attempt IpamConfig)
checked_config windows config =
    if windows && not config.strict_affinity
    then returning (failed strict_affinity_required)
    else returning (done config)

abbrev pub stored_config : Bool → Reply ipam_config → Program (Attempt IpamConfig)
stored_config windows (Reply.ok obj) = checked_config windows obj.value
stored_config windows (Reply.fail e current) =
    if is_does_not_exist e
    then checked_config windows default_config
    else returning (failed (store_error e))

unfoldable pub get_ipam_config : Bool → Program (Attempt IpamConfig)
get_ipam_config windows = asking ipam_config (get_request tt) (stored_config windows)

abbrev pub equal_bool : Bool → Bool → Bool
equal_bool true b = b
equal_bool false b = not b

abbrev pub equal_config : IpamConfig → IpamConfig → Bool
equal_config a b =
    equal_bool a.strict_affinity b.strict_affinity
    && equal_bool a.auto_allocate_blocks b.auto_allocate_blocks
    && same_int a.max_blocks_per_host b.max_blocks_per_host

abbrev pub applied : Reply ipam_config → Program (Attempt (Unit {0}))
applied (Reply.ok kvp) = returning (done tt)
applied (Reply.fail e current) = returning (failed (store_error e))

abbrev pub apply_config : IpamConfig → Option ℕ → Program (Attempt (Unit {0}))
apply_config cfg revision =
    asking ipam_config (apply_request (record { key = tt; value = cfg; revision = revision }))
      applied

abbrev pub old_config : IpamConfig → Reply ipam_config → Program (Attempt (Unit {0}))
old_config cfg (Reply.ok old) = apply_config cfg old.revision
old_config cfg (Reply.fail e current) =
    if is_does_not_exist e then apply_config cfg none else returning (failed (store_error e))

abbrev pub change_config : IpamConfig → Attempt IpamConfig → Program (Attempt (Unit {0}))
change_config cfg (failed e) = returning (failed e)
change_config cfg (done current) =
    if equal_config current cfg
    then returning (done tt)
    else if valid_config cfg
    then asking ipam_config (get_request tt) (old_config cfg)
    else returning (failed invalid_config)

unfoldable pub set_ipam_config : Bool → IpamConfig → Program (Attempt (Unit {0}))
set_ipam_config windows cfg = get_ipam_config windows >>= change_config cfg

-- The limit of blocks for a request: the smaller of the two that are set, or the one that is, or 20.
abbrev pub merged_limit : ℤ → ℤ → ℤ
merged_limit global requested =
    if is_positive global && is_positive requested && less global requested
    then global
    else if is_zero requested
    then global
    else requested

unfoldable pub max_num_blocks : IpamConfig → ℤ → ℤ
max_num_blocks config requested =
    let limit = merged_limit config.max_blocks_per_host requested in
    if is_zero limit then pos 20 else limit

-- ===== src/Ipam/Client/Handles.antt =====
-- incrementHandle and decrementHandle of lib/ipam/ipam.go.
pub mod Counting
use zyzxlibcalico_go.Prelude.{
  ℕ, zero, suc, String, Bool, true, false, Option, none, some, [], if◌then◌else◌,
}
use zyzxlibcalico_go.Ipam.Address.{IpNet}
use zyzxlibcalico_go.Ipam.Handle.{
  IpamHandle, HandleError, Result, increment_block, decrement_block, empty,
}
use zyzxlibcalico_go.Ipam.Datastore.{ipam_handle, KvPair, Reply, StoreError}
use zyzxlibcalico_go.Ipam.Datastore.Programs.{
  Program, returning, asking, create_request, update_request, delete_request, get_request,
}
use zyzxlibcalico_go.Ipam.ReaderWriter.{
  IpamError, store_error, handle_error, max_retries, Attempt, done, failed, is_does_not_exist,
  is_update_conflict,
}
use zyzxlibcalico_go.Ipam.Client.{datastore_retries}

-- A new handle.
abbrev pub new_handle : String → KvPair ipam_handle
new_handle id = record {
  key = id;
  value = record { handle_id = id; block = []; deleted = false };
  revision = none;
}

-- Any error of the write is a reason to retry.
abbrev pub unless_written :
    Program (Attempt (Unit {0})) → Reply ipam_handle → Program (Attempt (Unit {0}))
unless_written again (Reply.ok kvp) = returning (done tt)
unless_written again (Reply.fail e current) = again

-- Create for a pair without a revision, and else Update.
abbrev pub write_handle :
    Program (Attempt (Unit {0})) → Option ℕ → KvPair ipam_handle → Program (Attempt (Unit {0}))
write_handle again none obj = asking ipam_handle (create_request obj) (unless_written again)
write_handle again (some rev) obj = asking ipam_handle (update_request obj) (unless_written again)

abbrev pub incremented_pair : String → ℕ → KvPair ipam_handle → KvPair ipam_handle
incremented_pair block num obj = record obj { value = (increment_block block num obj.value).1 }

abbrev pub handle_to_increment :
    String
    → String
    → ℕ
    → Program (Attempt (Unit {0}))
    → Reply ipam_handle
    → Program (Attempt (Unit {0}))
handle_to_increment id block num again (Reply.ok obj) =
    write_handle again obj.revision (incremented_pair block num obj)
handle_to_increment id block num again (Reply.fail e current) =
    if is_does_not_exist e
    then write_handle again none (incremented_pair block num (new_handle id))
    else returning (failed (store_error e))

unfoldable pub increment_tries : ℕ → String → String → ℕ → Program (Attempt (Unit {0}))
increment_tries zero id block num = returning (failed max_retries)
increment_tries (suc n) id block num =
    asking ipam_handle (get_request id)
      (handle_to_increment id block num (increment_tries n id block num))

unfoldable pub increment_handle :
    (IpNet → String) → String → IpNet → ℕ → Program (Attempt (Unit {0}))
increment_handle name id cidr num = increment_tries datastore_retries id (name cidr) num

-- A conflict is a reason to retry; a handle that is deleted already is no error.
abbrev pub unless_deleted :
    Program (Attempt (Unit {0})) → Reply ipam_handle → Program (Attempt (Unit {0}))
unless_deleted again (Reply.ok kvp) = returning (done tt)
unless_deleted again (Reply.fail e current) =
    if is_update_conflict e
    then again
    else if is_does_not_exist e
    then returning (done tt)
    else returning (failed (store_error e))

abbrev pub unless_updated :
    Program (Attempt (Unit {0})) → Reply ipam_handle → Program (Attempt (Unit {0}))
unless_updated again (Reply.ok kvp) = returning (done tt)
unless_updated again (Reply.fail e current) =
    if is_update_conflict e then again else returning (failed (store_error e))

abbrev pub write_decremented :
    Program (Attempt (Unit {0})) → KvPair ipam_handle → Result → Program (Attempt (Unit {0}))
write_decremented again obj (Result.failed e) = returning (failed (handle_error e))
write_decremented again obj (Result.done n h) =
    if empty h
    then asking ipam_handle (delete_request (record obj { value = h })) (unless_deleted again)
    else asking ipam_handle (update_request (record obj { value = h })) (unless_updated again)

abbrev pub handle_to_decrement :
    String → ℕ → Program (Attempt (Unit {0})) → Reply ipam_handle → Program (Attempt (Unit {0}))
handle_to_decrement block num again (Reply.fail e current) = returning (failed (store_error e))
handle_to_decrement block num again (Reply.ok obj) =
    write_decremented again obj (decrement_block block num obj.value)

unfoldable pub decrement_tries : ℕ → String → String → ℕ → Program (Attempt (Unit {0}))
decrement_tries zero id block num = returning (failed max_retries)
decrement_tries (suc n) id block num =
    asking ipam_handle (get_request id)
      (handle_to_decrement block num (decrement_tries n id block num))

-- The first try is on the given handle, if there is one.
abbrev first_try :
    Option (KvPair ipam_handle) → String → String → ℕ → ℕ → Program (Attempt (Unit {0}))
first_try none id block num retries = decrement_tries (suc retries) id block num
first_try (some obj) id block num retries =
    write_decremented (decrement_tries retries id block num) obj
      (decrement_block block num obj.value)

unfoldable pub decrement_handle :
    (IpNet → String)
    → String
    → IpNet
    → ℕ
    → Option (KvPair ipam_handle)
    → Program (Attempt (Unit {0}))
decrement_handle name id cidr num obj = first_try obj id (name cidr) num 99

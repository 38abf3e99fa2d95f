-- ===== src/Sync/Writes/Offers.antt =====
-- What base_sync::write_http_data of src/sync/base_sync.cpp gives to the farms, against what
-- sync_master::handle_http_sync of src/sync/sync_master.cpp gives to the nodes.
use ssyncd.Common.Ordered.{bytes_ordered, nat_ordered}
use ssyncd.Common.Map.{lookup}
use ssyncd.Common.{
  Bool, if◌then◌else◌, length, ◌≤◌, ◌<◌, ℕ, suc, ◌≡◌, ◌⊎◌, true, false, Option, some, List, [], ◌∷◌,
  ◌++◌, ◌==◌,
}
use ssyncd.Common.Bytes.{Bytes}
use ssyncd.Connection.PacketParser.{Serialized, written, refused, raised}
use ssyncd.Connection.Send.{SendAnswer, Outcome, returned}
use ssyncd.Connection.Send.Whole.{IsWilling, takes}
use ssyncd.Http.Session.{HttpAction, HttpActionType, Indeterminate}
use ssyncd.Http.Parser.{serialize_http}
use ssyncd.Http.Farms.{HttpSync, FarmSocket, from_farm, add_farm, get_farm_fd}
use ssyncd.Sync.HttpData.{HttpData}
use ssyncd.Sync.Writes.Sessions.{Call, Sending, done, waits, raises}

-- What a socket took of the bytes of an action: all of them where the call returned true, which it does
-- where the socket does not fail and takes something often enough.
abbrev pub TakesPart : List SendAnswer → Serialized → Outcome × Bytes → Type 0
TakesPart answers (written all n) r =
    (missing : Bytes) × (r.1 ++ missing ≡ all)
    × (r.0 ≡ returned true → missing ≡ [])
    × (IsWilling all 0 answers → 0 < length all → length all ≤ takes answers → r.0 ≡ returned true)
TakesPart answers refused r = r ≡ (returned true, [])
TakesPart answers raised r = ⊥

module _ (g : Indeterminate) (type : HttpActionType) where
  -- The table of sockets with one for the farm: as it was where it has one, and else after add_farm,
  -- which may fail.
  abbrev pub reached : FarmSocket → Bytes → HttpSync → HttpSync × Bool
  reached os farm s = if get_farm_fd farm s == 0 then add_farm g type os farm s else (s, true)

  -- What a call of send_pound_action did with an action of a farm. The farm had no socket and could not be
  -- added; or a part of the action was taken, by the socket that is the farm's in farms_fd, or by
  -- that of number 0.
  abbrev pub IsOffered : Call → Bytes → HttpAction → HttpSync → Outcome × Bytes → Type 0
  IsOffered call farm x s r =
      let (s', ok) = reached call.socket farm s in
      let fd = get_farm_fd farm s' in
      ((ok ≡ false) × (r ≡ (returned false, [])))
      ⊎ ((ok ≡ true)
          × TakesPart call.answers (serialize_http (from_farm fd farm x)) r
          × ((fd ≡ 0) ⊎ (lookup fd s'.farms_fd ≡ some farm)))

module _ (g : Indeterminate) (type : HttpActionType) (calls : ℕ → Call) where
  -- One call for each action, each under its farm and with the table that the calls before it left.
  abbrev pub IsWritten :
      ℕ
      → List (Bytes × HttpAction)
      → HttpSync
      → List (Bytes × (Outcome × Bytes))
      → HttpSync
      → Type 0
  IsWritten n [] s [] s' = s' ≡ s
  IsWritten n [] s (w ∷ out) s' = ⊥
  IsWritten n ((farm, x) ∷ xs) s [] s' = ⊥
  IsWritten n ((farm, x) ∷ xs) s ((f, r) ∷ out) s' =
      (f ≡ farm)
      × IsOffered g type (calls n) farm x s r
      × IsWritten (suc n) xs (reached g type (calls n).socket farm s).0 out s'

  abbrev pub SendingIsWritten : ℕ → List (Bytes × HttpAction) → HttpSync → Sending → Type 0
  SendingIsWritten n xs s (done s' out) = IsWritten n xs s out s'
  SendingIsWritten n xs s waits = Unit
  SendingIsWritten n xs s raises = Unit

-- ===== src/Sync/Controller/Task/Switching.antt =====
-- What the commands that switch the mode do in the loop of sync_controller::ctl_task of
-- src/sync/sync_controller.cpp, which runs in the thread that sync_controller::start assigns.
use ssyncd.Common.{◌≡◌, true}
use ssyncd.Common.Bytes.{Bytes}
use ssyncd.Sync.Controller.{Controller}
use ssyncd.Sync.Controller.Task.{Served, serving, stopped, failed}

-- The thread is joinable while the loop runs.
abbrev pub ServedKeepsThread : Served → Type 0
ServedKeepsThread (serving c done) = c.command_thread ≡ true
ServedKeepsThread (stopped c) = Unit
ServedKeepsThread failed = Unit

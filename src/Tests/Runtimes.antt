-- ===== src/Tests/Runtimes.antt =====
-- Examples for the tick of `LxmfRuntime` in lxmf-rs/src/rns/router.rs.
use Prim.Native.String.{String}
use lxmf_rs.Prelude.{ℕ}
use lxmf_rs.Message.{LxMessage, new}
use lxmf_rs.Wire.Errors.{Result, ok, err, DeliveryMode, direct, opportunistic, RnsError, reticulum}
use lxmf_rs.Router.Queue.Store.{InMemoryStore, in_memory}
use lxmf_rs.Router.Queue.{RnsRouter, enqueue}
use lxmf_rs.Router.Queue
use lxmf_rs.Router.Runtime.{LxmfRuntime, with_config, default_config}
use lxmf_rs.Tests.{toy_float, hash16}

abbrev hello : LxMessage toy_float
hello = new (hash16 1) (hash16 2)

-- A network that has a path for direct messages only.
abbrev send_by : LxMessage toy_float → DeliveryMode → LxMessage toy_float × Result RnsError ℕ
send_by m direct = (m, ok 1)
send_by m _ = (m, err (reticulum "down"))

abbrev show : RnsError → String
show e = "failed"

abbrev fresh : RnsRouter toy_float (InMemoryStore toy_float) ℕ
fresh = Queue.new

abbrev first : RnsRouter toy_float (InMemoryStore toy_float) ℕ × ℕ
first = enqueue in_memory fresh hello direct

abbrev second : RnsRouter toy_float (InMemoryStore toy_float) ℕ × ℕ
second = enqueue in_memory first.0 hello opportunistic

abbrev running : LxmfRuntime toy_float (InMemoryStore toy_float) ℕ
running = with_config second.0 default_config

-- ===== src/Netns.antt =====
-- The namespace switches of obtain_container_ip/obtain_container_veth.cpp, which
-- obtain_container_ip.cpp repeats.
pub mod Switch
pub mod Restore
pub mod Even
mod Tests
use everyday_coding.Base.{ℕ, Bool, true, false, Option, none, some}
use everyday_coding.CString.{Str}
use everyday_coding.Os.{
  Kind, net, mnt, Kernel, Action, pure, ◌>>=◌, ◌>>◌, open_path, close, setns, self_path,
}

module _ (k : Kernel) where
  -- What enter_netns and enter_mntns have in common: the descriptor of the namespace that the
  -- process was in, or `none` for -1. It is three calls; here is what follows each.
  abbrev pub after_setns : (curfd nsfd : ℕ) → Bool → Action (Option ℕ)
  after_setns curfd nsfd false = close nsfd >> close curfd >> pure none
  after_setns curfd nsfd true = close nsfd >> pure (some curfd)

  abbrev pub after_target : Kind → (curfd : ℕ) → Option ℕ → Action (Option ℕ)
  after_target kind curfd none = close curfd >> pure none
  after_target kind curfd (some nsfd) = setns k nsfd kind >>= after_setns curfd nsfd

  abbrev pub after_current : Kind → Str → Option ℕ → Action (Option ℕ)
  after_current kind ns none = pure none
  after_current kind ns (some curfd) = open_path k ns >>= after_target kind curfd

  unfoldable pub enter_ns : Kind → Str → Action (Option ℕ)
  enter_ns kind ns = open_path k (self_path kind) >>= after_current kind ns

  abbrev pub enter_netns : Str → Action (Option ℕ)
  enter_netns netns = enter_ns net netns

  abbrev pub enter_mntns : Str → Action (Option ℕ)
  enter_mntns mntns = enter_ns mnt mntns

  -- restore_netns and restore_mntns; `false` for -1
  abbrev pub after_restore : ℕ → Bool → Action Bool
  after_restore fd false = close fd >> pure false
  after_restore fd true = close fd >> pure true

  unfoldable pub restore_ns : Kind → ℕ → Action Bool
  restore_ns kind fd = setns k fd kind >>= after_restore fd

  abbrev pub restore_netns : ℕ → Action Bool
  restore_netns fd = restore_ns net fd

  abbrev pub restore_mntns : ℕ → Action Bool
  restore_mntns fd = restore_ns mnt fd

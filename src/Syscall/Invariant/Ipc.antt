-- ===== src/Syscall/Invariant/Ipc.antt =====
-- The system calls of IPC keep it true that only the current environment is running.
use yu_os.Sched.Calls.{OneRuns-same, OneRuns-set_env}
use yu_os.Syscall.{deref, Option, ℕ}
use yu_os.Layout.{Reply, ret, err, utop, pgsize}
use yu_os.Syscall.EnvCalls.{sys_yield}
use yu_os.Prelude.{
  Option, ℕ, After-any, ends, some, After-if, not, ◌==◌, ◌&&◌, false, none, ◌%◌, ltb, refl,
}
use yu_os.Syscall.PageCalls.{gains_write, lacks_bits, extra_bits}
use yu_os.Syscall.Ipc.{
  send_page, sys_ipc_recv, page_sent, deliver, sys_ipc_try_send, send_found, waiting,
}
use yu_os.Pmap.Table.{Found, page_lookup, page_insert}
use yu_os.Syscall.Invariant.{Keeps, Keeps-with_env}
use yu_os.Syscall.Invariant.EnvCalls.{Keeps-sys_yield}

pub Keeps-deliver : (e value : ℕ) → Keeps (deliver e value)
unfolding deliver
Keeps-deliver e value k one =
    After-any (deref k.curenv) _ (λ cur. ends (OneRuns-set_env e _ (λ h. absurd (cc)) one))

pub Keeps-page_sent : (e value perm : ℕ) (r : Reply ℕ) → Keeps (page_sent e value perm r)
Keeps-page_sent e value perm (err x) k one = ends one
Keeps-page_sent e value perm (ret v) k one =
    Keeps-deliver e value _
      (OneRuns-set_env e (record (k.envs e) { env_ipc_perm = perm }) (λ h. h) one)

pub Keeps-send_found :
    (e value perm : ℕ) (found : Option Found) → Keeps (send_found e value perm found)
Keeps-send_found e value perm none k one = ends one
Keeps-send_found e value perm (some f) k one = After-if (gains_write f.slot perm k.mem) (ends one) (
    After-if (ltb (k.envs e).env_ipc_dstva utop)
      (After-any (page_insert (k.envs e).env_pgdir f.page (k.envs e).env_ipc_dstva perm k.mem) _
        (λ (r, m). Keeps-page_sent e value perm r _ (OneRuns-same {k = k} refl refl one)))
      (Keeps-deliver e value k one))

pub Keeps-send_page : (e value srcva perm : ℕ) → Keeps (send_page e value srcva perm)
unfolding send_page
Keeps-send_page e value srcva perm k one = After-if (not (srcva % pgsize == 0)) (ends one) (
    After-if (lacks_bits perm) (ends one) (
      After-if (extra_bits perm) (ends one) (
        After-any (deref k.curenv) _ (λ cur.
          After-any (page_lookup (k.envs cur).env_pgdir srcva k.mem) _ (λ (found, m).
            Keeps-send_found e value perm found _ (OneRuns-same {k = k} refl refl one))))))

pub Keeps-sys_ipc_try_send :
    (envid value srcva perm : ℕ) → Keeps (sys_ipc_try_send envid value srcva perm)
unfolding sys_ipc_try_send
Keeps-sys_ipc_try_send envid value srcva perm = Keeps-with_env envid false _ (λ e k one.
    After-if (not (k.envs e).env_ipc_recving) (ends one) (
      After-if (ltb srcva utop) (Keeps-send_page e value srcva perm k one)
        (Keeps-deliver e value k one)))

pub Keeps-sys_ipc_recv : (dstva : ℕ) → Keeps (sys_ipc_recv dstva)
unfolding sys_ipc_recv sys_yield
Keeps-sys_ipc_recv dstva k one = After-if (ltb dstva utop && not (dstva % pgsize == 0)) (ends one) (
    After-any (deref k.curenv) _ (λ cur.
      Keeps-sys_yield _ (OneRuns-set_env cur (waiting dstva (k.envs cur)) (λ h. absurd (cc)) one)))

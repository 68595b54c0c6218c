-- ===== src/Syscall/Ipc.antt =====
-- Message passing: sys_ipc_try_send and sys_ipc_recv of kern/syscall.c.
pub mod Delivery
pub mod Transfer
use yu_os.Prelude.{
  Option, ℕ, true, if◌then◌else◌, ◌>>=◌, not, ltb, false, ◌%◌, ◌&&◌, ◌==◌, ok, none, some,
}
use yu_os.Layout.{Reply, err, ret, ipc_not_recv, utop, pgsize, inval}
use yu_os.Syscall.{Call, with_env, returns, deref, away}
use yu_os.Env.{Env, Status, set_env}
use yu_os.Sched.{sched_yield}
use yu_os.Syscall.PageCalls.{lacks_bits, extra_bits, gains_write}
use yu_os.Pmap.Table.{Found, page_lookup, page_insert}

-- The last lines of `sys_ipc_try_send`, to the environment `e`
unfoldable pub deliver : ℕ → ℕ → Call
deliver e value k = do
  cur ← deref k.curenv
  returns (ret 0) (
      set_env e
        (record (k.envs e) {
          env_ipc_value = value;
          env_ipc_from = (k.envs cur).env_id;
          env_ipc_recving = false;
          env_status = Status.runnable;
        })
        k)

-- What follows `page_insert` there
abbrev pub page_sent : ℕ → ℕ → ℕ → Reply ℕ → Call
page_sent e value perm (err x) k = returns (err x) k
page_sent e value perm (ret _) k =
    deliver e value (set_env e (record (k.envs e) { env_ipc_perm = perm }) k)

-- What follows `page_lookup` in the sender's address space
abbrev pub send_found : ℕ → ℕ → ℕ → Option Found → Call
send_found e value perm none k = returns (err inval) k
send_found e value perm (some f) k =
    if gains_write f.slot perm k.mem
    then returns (err inval) k
    else if ltb (k.envs e).env_ipc_dstva utop
    then (do
      (r, m) ← page_insert (k.envs e).env_pgdir f.page (k.envs e).env_ipc_dstva perm k.mem
      page_sent e value perm r (record k { mem = m }))
    else deliver e value k

-- The block for `srcva < UTOP`, with what follows it
unfoldable pub send_page : ℕ → ℕ → ℕ → ℕ → Call
unfolding deliver
send_page e value srcva perm k =
    if not (srcva % pgsize == 0)
    then returns (err inval) k
    else if lacks_bits perm
    then returns (err inval) k
    else if extra_bits perm
    then returns (err inval) k
    else (do
      cur ← deref k.curenv
      (found, m) ← page_lookup (k.envs cur).env_pgdir srcva k.mem
      send_found e value perm found (record k { mem = m }))

unfoldable pub sys_ipc_try_send : ℕ → ℕ → ℕ → ℕ → Call
unfolding send_page deliver
sys_ipc_try_send envid value srcva perm = with_env envid false (λ e k.
    if not (k.envs e).env_ipc_recving
    then returns (err ipc_not_recv) k
    else if ltb srcva utop
    then send_page e value srcva perm k
    else deliver e value k)

-- What `sys_ipc_recv` sets in the current environment
abbrev pub waiting : ℕ → Env → Env
waiting dstva e = record e {
  env_ipc_recving = true;
  env_ipc_dstva = dstva;
  env_status = Status.not_runnable;
  env_tf = record (e.env_tf) { tf_regs = record (e.env_tf.tf_regs) { reg_eax = 0 } };
}

unfoldable pub sys_ipc_recv : ℕ → Call
sys_ipc_recv dstva k =
    if ltb dstva utop && not (dstva % pgsize == 0) then returns (err inval) k else (do
      cur ← deref k.curenv
      let (k', exit) = sched_yield (set_env cur (waiting dstva (k.envs cur)) k)
      ok (away exit, k'))

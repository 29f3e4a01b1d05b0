-- ===== src/Tcp/Closed.antt =====
-- A connection that is closed (network/net/TcpConnection.cpp).
use turbo_multimedia_server.Common.{
  ◌≡◌, refl, ap, inl, inr, true, List, [], ◌∷◌, ◌++◌, Bool-cases, ok, ◌>>=◌, if◌then◌else◌,
}
use turbo_multimedia_server.Buffer.ReadFd.{ReadvResult}
use turbo_multimedia_server.Tcp.{
  Iovec, Answer, TcpConnection, extend_life, after_writev, write_loop, read_loop, on_read, on_write,
  on_close, send_list,
}

-- A connection is closed behind `onClose`, and what it sent and has pending is as before.
pub on_close_lem :
    (c : TcpConnection)
    → ((on_close c).closed ≡ true)
      × ((on_close c).wire ≡ c.wire)
      × ((on_close c).io_vec_list ≡ c.io_vec_list)
unfolding on_close
on_close_lem c = elim (Bool-cases c.closed) [
  | inl b ↦ rw (on_close, b) (refl, refl, refl)
  | inr b ↦ rw (on_close, b) (refl, refl, refl)
]

module _ (c : TcpConnection) (over : c.closed ≡ true) where
  pub on_read_closed :
      (heard : TcpConnection → TcpConnection) (rs : List ReadvResult) → on_read heard rs c ≡ ok c
  unfolding on_read
  on_read_closed heard rs =
      ap (λ b. if b then ok c else (extend_life c >>= read_loop heard rs)) over

  pub on_write_closed : (answers : List Answer) → on_write answers c ≡ ok c
  unfolding on_write
  on_write_closed answers =
      ap (λ b. if b then ok c else (extend_life c >>= λ x. after_writev (write_loop answers) x))
        over

  pub send_list_closed : (vec : List Iovec) → send_list vec c ≡ c
  unfolding send_list
  send_list_closed vec = ap (λ b. if b then c else open_now) over
    where
      open_now : TcpConnection
      open_now =
          let c₁ : TcpConnection = record c { io_vec_list = c.io_vec_list ++ vec } in
          elim c₁.io_vec_list [ [] ↦ c₁ | p ∷ ps ↦ record c₁ { writing = true } ]

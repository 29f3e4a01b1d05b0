-- ===== src/Client/Opening.antt =====
-- Before a client has a connection (network/TcpClient.cpp): what it sends.
use turbo_multimedia_server.Common.{
  ℕ, suc, ◌≡◌, refl, sym, ap, ◌∙◌, inl, inr, ◌⊎◌, Bool, true, false, not, ◌&&◌, subst, List, [],
  Option, none, some, ◌==◌, if◌then◌else◌, Bool-cases, Result, ok, ◌>>=◌,
}
use turbo_multimedia_server.Buffer.ReadFd.{ReadvResult}
use turbo_multimedia_server.Loop.{add_event, enable_event_writing}
use turbo_multimedia_server.Tcp.{Iovec, Answer, TcpConnection, on_close, send_list}
use turbo_multimedia_server.Tcp.Closed.{
  on_close_lem, on_read_closed, on_write_closed, send_list_closed,
}
use turbo_multimedia_server.Client.{
  connecting, connected, disconnected, is_connecting, is_connected, TcpClient, Connect, connects,
  refuses, in_progress, client_on_close, update_connection_status, connect_in_loop, on_connecting,
  client_on_read, client_on_write, client_send_list, client_send, absorb,
}

-- What the owner and the loop do with a client; the Boolean is what `checkError` gives.
pub data Operation : Type 0 where
  opens : Option ℕ → Connect → Operation
  readable : Bool → (TcpConnection → TcpConnection) → List ReadvResult → Operation
  writable : Bool → List Answer → Operation
  closes : Operation
  sends_list : List Iovec → Operation
  sends : ℕ → ℕ → Operation

pub perform : Operation → TcpClient → Result TcpClient
perform (opens fd result) c = ok (connect_in_loop fd result c)
perform (readable failed heard rs) c = client_on_read failed heard rs c
perform (writable failed answers) c = client_on_write failed answers c
perform closes c = ok (client_on_close c)
perform (sends_list vec) c = ok (client_send_list vec c)
perform (sends buf len) c = ok (client_send buf len c)

-- Nothing was sent and nothing is pending.
abbrev pub IsSilent : TcpConnection → Type 0
IsSilent x = (x.wire ≡ []) × (x.io_vec_list ≡ [])

-- The client has had no connection yet. Its status may say that it has, but only if it is closed.
pub record IsUnconnected (c : TcpClient) : Type 0 where
  pub never : c.established ≡ 0
  pub silent : IsSilent c.connection
  pub closed : is_connected c.status ≡ true → c.connection.closed ≡ true

-- Unconnected still, or connected for the first time with nothing sent.
abbrev pub Opens : TcpClient → Type 0
Opens c = IsUnconnected c ⊎ ((c.established ≡ 1) × (c.status ≡ connected) × IsSilent c.connection)

on_close-IsSilent : (x : TcpConnection) → IsSilent x → IsSilent (on_close x)
on_close-IsSilent x s = let e = on_close_lem x in (e.1 ∙ s.0, e.2 ∙ s.1)

module _ (c : TcpClient) (u : IsUnconnected c) where
  client_on_close-IsUnconnected : IsUnconnected (client_on_close c)
  unfolding client_on_close
  client_on_close-IsUnconnected = record {
    never = u.never;
    silent = on_close-IsSilent c.connection u.silent;
    closed = λ h. cc;
  }

  update_lem : Opens (update_connection_status c)
  unfolding update_connection_status
  update_lem = inr (ap suc u.never, refl, u.silent)

  on_connecting-Opens : (failed : Bool) → Opens (on_connecting failed c)
  unfolding on_connecting
  on_connecting-Opens true = inl client_on_close-IsUnconnected
  on_connecting-Opens false = update_lem

absorb_same : (c : TcpClient) → c.connection.closed ≡ true → absorb c.connection c ≡ c
unfolding absorb
absorb_same c over =
    ap (λ b. if b && not b then record c { status = disconnected; fd = none } else c) over

module _ (c : TcpClient) (u : IsUnconnected c) where
  opened-Opens : (fd : ℕ) (result : Connect) → Opens (connect_in_loop (some fd) result c)
  unfolding connect_in_loop
  opened-Opens fd result = by_result result
    where
      c₁ : TcpClient
      c₁ = record c {
        fd = some fd;
        status = connecting;
        loop = enable_event_writing fd true (add_event fd c.loop);
        connection = record c.connection { writing = true };
      }

      u₁ : IsUnconnected c₁
      u₁ = record { never = u.never; silent = u.silent; closed = λ h. cc }

      by_result : (result : Connect) → Opens (connect_in_loop (some fd) result c)
      by_result connects = update_lem c₁ u₁
      by_result (refuses e) = elim (Bool-cases (e == in_progress)) [
        | inl b ↦ subst (λ x. Opens (if x then c₁ else client_on_close c₁)) (sym b) (inl u₁)
        | inr b ↦
            subst (λ x. Opens (if x then c₁ else client_on_close c₁)) (sym b)
              (inl (client_on_close-IsUnconnected c₁ u₁))
      ]

  -- An event of the socket, of which the connection makes `handled`.
  event-Opens :
      (failed : Bool) (handled : Result TcpClient)
      → (is_connected c.status ≡ true → handled ≡ ok c)
      → (c' : TcpClient) × ((if is_connecting c.status
            then ok (on_connecting failed c)
            else (if is_connected c.status then handled else ok c))
          ≡ ok c')
        × Opens c'
  event-Opens failed handled same = elim (Bool-cases (is_connecting c.status)) [
    | inl b ↦ (
      on_connecting failed c,
      ap
          (λ x.
            if x
            then ok (on_connecting failed c)
            else (if is_connected c.status then handled else ok c))
          b,
      on_connecting-Opens c u failed,
    )
    | inr b ↦ (
      c,
      ap
            (λ x.
              if x
              then ok (on_connecting failed c)
              else (if is_connected c.status then handled else ok c))
            b
          ∙ elim (Bool-cases (is_connected c.status)) [
            | inl d ↦ ap (λ x. if x then handled else ok c) d ∙ same d
            | inr d ↦ ap (λ x. if x then handled else ok c) d
          ],
      inl u,
    )
  ]

  -- Whatever is asked of a client that has had no connection yet: it returns, and until the client tells
  -- its owner of the connection, when `connect` succeeds at once or the socket's first event comes with no
  -- error, nothing is sent and nothing is queued. This holds when it is sent something,
  -- closed or opened again before, also where its status was set to connected by `send`.
  pub perform-Opens : (o : Operation) → (c' : TcpClient) × (perform o c ≡ ok c') × Opens c'
  unfolding perform client_on_read client_on_write client_send_list client_send connect_in_loop
  perform-Opens (opens none result) = (
    _,
    refl,
    inl (
        client_on_close-IsUnconnected (record c { fd = none })
          (record { never = u.never; silent = u.silent; closed = u.closed })),
  )
  perform-Opens (opens (some fd) result) = (_, refl, opened-Opens fd result)
  perform-Opens (readable failed heard rs) = event-Opens failed _ (λ d.
      ap (λ r. r >>= λ x. ok (absorb x c)) (on_read_closed c.connection (u.closed d) heard rs)
      ∙ ap ok (absorb_same c (u.closed d)))
  perform-Opens (writable failed answers) = event-Opens failed _ (λ d.
      ap (λ r. r >>= λ x. ok (absorb x c)) (on_write_closed c.connection (u.closed d) answers)
      ∙ ap ok (absorb_same c (u.closed d)))
  perform-Opens closes = (_, refl, inl (client_on_close-IsUnconnected c u))
  perform-Opens (sends_list vec) = (
    c,
    elim (Bool-cases (is_connected c.status)) [
      | inl d ↦
          ap (λ x. ok (if x then record c { connection = send_list vec c.connection } else c)) d
          ∙ ap (λ x. ok (record c { connection = x }))
              (send_list_closed c.connection (u.closed d) vec)
      | inr d ↦
          ap (λ x. ok (if x then record c { connection = send_list vec c.connection } else c)) d
    ],
    inl u,
  )
  perform-Opens (sends buf len) = (
    _,
    refl,
    inl (record {
      never = u.never;
      silent = on_close-IsSilent c.connection u.silent;
      closed = λ h. (on_close_lem c.connection).0;
    }),
  )

-- A client that is sent bytes by their address and length sends and queues none of them, whatever its
-- state: it closes the connection and is left with the status of one that is connected.
pub client_send_lem :
    (buf len : ℕ) (c : TcpClient)
    → ((client_send buf len c).connection.wire ≡ c.connection.wire)
      × ((client_send buf len c).connection.io_vec_list ≡ c.connection.io_vec_list)
      × ((client_send buf len c).connection.closed ≡ true)
      × ((client_send buf len c).status ≡ connected)
unfolding client_send
client_send_lem buf len c = let e = on_close_lem c.connection in (e.1, e.2, e.0, refl)

-- ===== src/Cc/ConnList.antt =====
-- The list `cc_conns` of user/cc.c, and the walks along `cc_next`.
use flex_toe.Prelude.{if◌then◌else◌, ℕ, ◌==◌, ◌∷◌, List, Option, [], none, some}
use flex_toe.Cc.State.{Conn}

-- The connection with an id.
unfoldable pub find_conn : ℕ → List Conn → Option Conn
find_conn id [] = none
find_conn id (c ∷ cs) = if c.conn_id == id then some c else find_conn id cs

-- Writes through a pointer.
unfoldable pub write_conn : Conn → List Conn → List Conn
write_conn c' [] = []
write_conn c' (c ∷ cs) = if c.conn_id == c'.conn_id then c' ∷ cs else c ∷ write_conn c' cs

unfoldable pub head_id : List Conn → Option ℕ
head_id [] = none
head_id (c ∷ cs) = some c.conn_id

-- The field `cc_next` of the connection with an id.
unfoldable pub cc_next : ℕ → List Conn → Option ℕ
cc_next id [] = none
cc_next id (c ∷ cs) = if c.conn_id == id then head_id cs else cc_next id cs

-- The list without a connection; `none` when it is not there.
unfoldable pub unlink : ℕ → List Conn → Option (List Conn)
unlink id [] = none
unlink id (c ∷ cs) =
    if c.conn_id == id
    then some cs
    else elim (unlink id cs) [ none ↦ none | some rest ↦ some (c ∷ rest) ]

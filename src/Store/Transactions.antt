-- ===== src/Store/Transactions.antt =====
-- store/store.go: WithTx, over a leveldb that is a parameter.
use fnd.Base.{Outcome, ok, err, panicked}
use fnd.Base.Stateful.{Stateful}
use fnd.Store.Interface.{DbError}
use fnd.Store.Leveldb.{Leveldb}

module _ (L : Leveldb) where
  abbrev pub TxCb : Type 0
  TxCb = Stateful L.Tx DbError (Unit {0})

  -- The deferred function: it discards what a panic leaves, and commits whatever the callback
  -- returned, since the err that it reads is that of OpenTransaction. An error of Commit is lost.
  unfoldable pub finish :
      L.Db → Outcome DbError (Unit {0}) → L.Tx → Outcome DbError (Unit {0}) × L.Db
  finish db (ok u) tx = (ok u, (L.commit tx).1)
  finish db (err e) tx = (err e, (L.commit tx).1)
  finish db panicked tx = (panicked, db)

  unfoldable pub with_opened :
      L.Db → Outcome DbError L.Tx → TxCb → Outcome DbError (Unit {0}) × L.Db
  with_opened db (ok tx) cb = finish db (cb tx).0 (cb tx).1
  with_opened db (err e) cb = (err e, db)
  with_opened db panicked cb = (panicked, db)

  -- `WithTx`
  unfoldable pub with_tx : L.Db → TxCb → Outcome DbError (Unit {0}) × L.Db
  unfolding with_opened finish
  with_tx db cb = with_opened db (L.open_transaction db) cb

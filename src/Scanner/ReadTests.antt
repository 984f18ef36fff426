-- ===== src/Scanner/ReadTests.antt =====
-- src/exec/ORCScanner.cpp: the values that a scan of the test's two files reads, four batches.
use tengdb.Common.{◌≡◌, refl, [], ◌∷◌}
use tengdb.Common.Run.{ok}
use tengdb.Scanner.Tests.{last_values}
use tengdb.Table.Rep
use tengdb.Scanner.Batches.{
  stripe_at, set_eof, read_stripe, at_end, read_current, open_next, next_batch, scan,
}
use tengdb.Scanner.Batch.{followed, resize_columns, resize_batch}
use tengdb.Scanner.Batch.Print.{value_at, print}
use tengdb.Scanner.Columns.{
  data_bytes, as_bytes, put_values, result_cells, plan, generated, column_number, with_column,
  read_stream, read_runs, read_column, read_columns,
}
use tengdb.Reader.{
  has_kind, matches, locate, stripe_streams, make_room, with_bytes, read_into, with_datasize,
  readdata,
}
use tengdb.Reader.Open.{tail_bytes, with_footer, with_postscript, create_reader}
use tengdb.Table.Access.{next_path}
use tengdb.Table.Rep.{is_hidden, is_wanted, next_file}
use tengdb.Table.Columns.{insert, fill_map, new_colmap, get_column_number}
use tengdb.MemoryPool.{
  is_null, bytes_of, overwrite, write_block, move, with_block, reserve, with_size, clear_new,
  resize,
}
use tengdb.Rle.Next.{encoding_of, finish_run, next_run, next_loop, next}
use tengdb.Rle.Header.{width_field, run_length_field, encoding_field}
use tengdb.Rle.Repeats.{fill, next_short_repeats}
use tengdb.Rle.Word.{un_zigzag, convert}
use tengdb.Rle.Bytes.{read_long_be_loop, read_long_be}
use tengdb.Common.Name.{same_name, put}
use tengdb.ColumnInfo.Column.{is_rle_kind, is_rle_type}
use tengdb.Common.Run.{next_byte, shl}

read_values : last_values ≡ ok (5000 ∷ 2 ∷ 5000 ∷ 2 ∷ [])
unfolding Rep.scan stripe_at set_eof read_stripe at_end read_current open_next next_batch scan
    followed resize_columns resize_batch value_at print data_bytes as_bytes put_values result_cells
    plan generated column_number with_column read_stream read_runs read_column read_columns has_kind
    matches locate stripe_streams make_room with_bytes read_into with_datasize readdata tail_bytes
    with_footer with_postscript create_reader next_path is_hidden is_wanted next_file insert
    fill_map new_colmap get_column_number is_null bytes_of overwrite write_block move with_block
    reserve with_size clear_new resize encoding_of finish_run next_run next_loop next width_field
    run_length_field encoding_field fill next_short_repeats un_zigzag convert read_long_be_loop
    read_long_be same_name put is_rle_kind is_rle_type next_byte shl
read_values = refl
